-- ===== src/Router/SessionRouter/Answering.antt =====
-- router/index.ts: `control` keeps the router's invariant, that of the request cache included.
use package.ros_webrtc_bridge.Prelude.{
  ℕ, ◌+◌, ◌*◌, ◌≤◌, ◌<◌, ◌≡◌, refl, sym, ap, ◌∙◌, true, not, Option, none, some, [], length, Text,
  codes, same_text, arith,
}
use mathlib.Core.Path.{subst}
use package.ros_webrtc_bridge.Prelude.Dict.{lookup}
use package.ros_webrtc_bridge.Runtime.Outcome.{ok, or_throw}
use package.ros_webrtc_bridge.Runtime.Exec.{
  Exec, continue, gets, lift, pure, ensure, modify, ◌>>◌, Keeps, Keeps-then, Keeps-lift, Keeps-gets,
  Keeps-pure, Keeps-cond, Ensures, returned, Ensures-any, Ensures-continue, Ensures-lift,
  Ensures-map,
}
use package.ros_webrtc_bridge.Session.Queue.{Bytes, enqueue}
use package.ros_webrtc_bridge.Router.Protocol.{Wire, fields, text_field}
use package.ros_webrtc_bridge.Router.RequestCache
use package.ros_webrtc_bridge.Router.RequestCache.{
  RequestCache, Cached, reclaim, reserve, sweep, find,
}
use package.ros_webrtc_bridge.Router.RequestCache.Accounting
use package.ros_webrtc_bridge.Router.RequestCache.Accounting.{
  sweep-IsValid, store-IsValid, find_miss,
}
use package.ros_webrtc_bridge.Router.SessionRouter.{
  Outside, SessionRouter, control_stream, on_queue, on_cache, encode_wire,
}
use package.ros_webrtc_bridge.Router.SessionRouter.Sending.{find_subscription, respond}
use package.ros_webrtc_bridge.Router.SessionRouter.Operations.{
  operation, hello, ready, execute, request, control,
}
use package.ros_webrtc_bridge.Router.SessionRouter.Invariant.{
  Respects, Sound, Sound-map, Tables-subscription, Keeps-enqueue, Keeps-now,
}
use package.ros_webrtc_bridge.Router.SessionRouter.Flushing.{respond-Keeps}
use package.ros_webrtc_bridge.Router.SessionRouter.Requests.{OnCache}
use package.ros_webrtc_bridge.Router.SessionRouter.Handling.{operation-Keeps}

-- An encoded message is within the limit.
encode_wire_fits :
    {W N : Type 0} (out : Outside W N) (wire : Wire) (max : ℕ) (bytes : Bytes)
    → encode_wire out wire max ≡ ok bytes
    → length bytes ≤ max
unfolding encode_wire
encode_wire_fits out wire max bytes h = ground arith

-- The request is unknown, and the cache has room for one more.
abbrev Unknown : Text → RequestCache → Type 0
Unknown id c = (lookup id c.entries ≡ none) × (length c.entries < c.max_entries)

module _ {W N : Type 0} {P : W → Type 0} (out : Outside W N) (laws : Respects out P) where
  abbrev I : SessionRouter W N → Type 0
  I = Sound P (OnCache Accounting.IsValid)

  on_cache-Sound :
      (r : SessionRouter W N) (c : RequestCache)
      → Accounting.IsValid c
      → I r
      → I (record r { cache = c })
  on_cache-Sound r c v s = record {
    world = s.world;
    kept = v;
    queue = s.queue;
    tables = s.tables;
    named = s.named;
  }

  reclaim-Ensures :
      (id input : Text) (time : ℕ) (r : SessionRouter W N)
      → I r
      → Ensures I
          (λ cached q. I q × (cached ≡ none → Unknown id q.cache))
          (on_cache (reclaim id input time) r)
  unfolding reclaim
  reclaim-Ensures id input time r s =
      let swept = on_cache-Sound r (sweep time r.cache) (sweep-IsValid time r.cache s.kept) s in
      Ensures-any _ swept
        λ cached found. (swept, λ e. find_miss id input (sweep time r.cache) (found ∙ ap ok e))

  enqueued : (bytes : Bytes) → Keeps I (on_queue (enqueue control_stream bytes) >> pure tt)
  enqueued bytes =
      Keeps-then (on_queue (enqueue control_stream bytes)) _
        (Keeps-enqueue P (OnCache Accounting.IsValid) control_stream bytes) λ _. Keeps-pure tt

  -- A new request: its operation leaves the cache, so that there still is room for the answer.
  execute-Ensures :
      (wire : Wire) (id : Text) (time : ℕ) (r : SessionRouter W N)
      → I r
      → Unknown id r.cache
      → Ensures I (λ _. I) (execute out wire id time r)
  unfolding execute continue
  execute-Ensures wire id time r s (fresh, space) =
      Ensures-lift (RequestCache.reserve (r.max_bytes + length input * 2) r.cache) _ s λ u reserved.
        Ensures-continue same λ response q t.
          Ensures-lift (encode_wire out response r.max_bytes) _ (back q t) λ bytes encoded.
            enqueued bytes _ (
              on_cache-Sound q (RequestCache.store id input bytes time q.cache)
                (subst (λ c. Accounting.IsValid (RequestCache.store id input bytes time c))
                  (sym t.kept)
                  (store-IsValid id input bytes time r.max_bytes r.cache u s.kept fresh space
                    reserved (encode_wire_fits out response r.max_bytes bytes encoded)))
                (back q t))
    where
      input : Text
      input = out.stringify wire

      Same : SessionRouter W N → Type 0
      Same = Sound P (OnCache (λ c. c ≡ r.cache))

      back : (q : SessionRouter W N) → Same q → I q
      back q t = Sound-map q (λ e. subst Accounting.IsValid (sym e) s.kept) t

      same : Ensures I (λ _. Same) (operation out wire id r)
      same =
          Ensures-map
            (operation-Keeps (λ c. c ≡ r.cache) out laws wire id r (Sound-map r (λ _. refl) s)) back
            (λ _ _ t. t)

  request-Keeps : (wire : Wire) (id : Text) → Keeps I (request out wire id)
  unfolding request continue
  request-Keeps wire id r s =
      Ensures-continue (Keeps-now P (OnCache Accounting.IsValid) out laws r s) λ time q t.
        Ensures-continue (reclaim-Ensures id (out.stringify wire) time q t)
          λ cached q' (t', miss). answered time cached q' t' miss
    where
      answered :
          (time : ℕ) (cached : Option Bytes) (q : SessionRouter W N)
          → I q
          → (cached ≡ none → Unknown id q.cache)
          → Ensures I
              (λ _. I)
              ((elim cached as (λ _. Exec (SessionRouter W N) (Unit {0})) [
                | some bytes ↦ on_queue (enqueue control_stream bytes) >> pure tt
                | none ↦ execute out wire id time
              ])
                q)
      answered time none q s miss = execute-Ensures wire id time q s (miss refl)
      answered time (some bytes) q s miss = enqueued bytes q s

  welcome-Keeps : Keeps I (modify (λ r. record r { welcomed = true }))
  welcome-Keeps r s = returned (record {
    world = s.world;
    kept = s.kept;
    queue = s.queue;
    tables = s.tables;
    named = s.named;
  })

  hello-Keeps : (wire : Wire) → Keeps I (hello out wire)
  unfolding hello
  hello-Keeps wire = Keeps-then (lift (fields wire [])) _ (Keeps-lift _) λ _.
      Keeps-then (gets (λ r. r.welcomed)) _ (Keeps-gets _) λ welcomed.
        Keeps-then (ensure (not welcomed) _) _ (Keeps-lift _) λ _.
          Keeps-then (gets _) _ (Keeps-gets _) λ answer.
            Keeps-then (respond out answer) _ (respond-Keeps out laws answer) λ _. welcome-Keeps

  ready-Keeps : (wire : Wire) → Keeps I (ready out wire)
  unfolding ready continue find_subscription
  ready-Keeps wire r s = Ensures-lift (fields wire _) _ s λ _ _.
      Ensures-lift (text_field wire (codes "stream_id")) _ s λ id _.
        Ensures-lift (or_throw (lookup id r.subscriptions) _) _ s λ x found. returned (record {
          world = s.world;
          kept = s.kept;
          queue = s.queue;
          tables =
              Tables-subscription _ _ _ _ _ id x (record x { ready = true }) (ground arith)
                s.tables;
          named = s.named;
        })

  pub control-Keeps : (wire : Wire) (id : Option Text) → Keeps I (control out wire id)
  unfolding control
  control-Keeps wire id = Keeps-cond (same_text wire.op (codes "hello")) _ _ (hello-Keeps wire) (
      Keeps-then (gets (λ r. r.welcomed)) _ (Keeps-gets _) λ welcomed.
        Keeps-then (ensure welcomed _) _ (Keeps-lift _) λ _.
          Keeps-cond (same_text wire.op (codes "ready")) _ _ (ready-Keeps wire) (
            Keeps-then (lift (or_throw id _)) _ (Keeps-lift _)
              λ request_id. request-Keeps wire request_id))
