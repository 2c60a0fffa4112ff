-- ===== src/Router/SessionRouter/Started.antt =====
-- router/index.ts: the constructor gives a router in its invariant.
use package.ros_webrtc_bridge.Prelude.{
  ℕ, ◌≡◌, ◌≢◌, refl, sym, ap, ◌∙◌, Bool, true, false, Option, none, some, List, [], ◌∷◌, Text,
  codes, arith, text_discrete, inl, inr,
}
use mathlib.Core.Path.{subst}
use package.ros_webrtc_bridge.Prelude.Dict.{lookup, put, lookup-put_self, lookup-put_ne}
use package.ros_webrtc_bridge.Runtime.Outcome.{
  bind_ok, Reading, at, below_zero, not_finite, Outcome, ok, throw,
}
use package.ros_webrtc_bridge.Runtime.Exec.{
  continue, Ensures, returned, threw, Ensures-continue, Ensures-any, Ensures-state,
}
use package.ros_webrtc_bridge.Config.{TopicBinding}
use package.ros_webrtc_bridge.Session.Validation.{identifier}
use package.ros_webrtc_bridge.Session.Queue
use package.ros_webrtc_bridge.Session.Queue.{DeliveryQueue, register}
use package.ros_webrtc_bridge.Session.Queue.Accounting.{IsValid, init-IsValid, register-IsValid}
use package.ros_webrtc_bridge.Session.Queue.Names.{is_stream, register-streams}
use package.ros_webrtc_bridge.Session.Guard
use package.ros_webrtc_bridge.Session.Guard.{CommandGuard}
use package.ros_webrtc_bridge.Router.RequestCache.Accounting
use package.ros_webrtc_bridge.Router.SessionRouter.{
  RouterBinding, Outside, SessionRouter, control_stream, now, read_time,
}
use package.ros_webrtc_bridge.Router.SessionRouter.Invariant.{Respects, Named, Sound, Keeps-now}
use package.ros_webrtc_bridge.Router.SessionRouter.Requests.{OnCache}
use package.ros_webrtc_bridge.Router.SessionRouter.Construction.{
  RouterOptions, read_entries, check_limits, queue_options, new_queue, add_control, assembled,
  assemble, enter, made, construct,
}

-- The name under which a binding stands, if there is one.
abbrev name_or : {N : Type 0} → Text → Option (RouterBinding N) → Text
name_or k none = k
name_or k (some e) = e.binding.public_name

put-Named :
    {N : Type 0} (entry : RouterBinding N) (entries : List (Text × RouterBinding N))
    → Named entries
    → Named (put entry.binding.public_name entry entries)
put-Named entry entries named k e found = elim (text_discrete k name) [
  | yes i ↦
      ap (name_or k) (
        sym found
        ∙ ap (λ j. lookup j (put name entry entries)) i
        ∙ lookup-put_self name entry entries)
      ∙ sym i
  | no i ↦ named k e (sym (lookup-put_ne k name entry entries (λ j. i (sym j))) ∙ found)
]
  where
    name : Text
    name = entry.binding.public_name

pub read_entries-Named :
    {N : Type 0} (is_configured : TopicBinding → Bool) (bindings : List (RouterBinding N))
    (entries result : List (Text × RouterBinding N))
    → Named entries
    → read_entries is_configured bindings entries ≡ ok result
    → Named result
unfolding read_entries
read_entries-Named is_configured [] entries result named h = ground (arith, named)
read_entries-Named is_configured (entry ∷ rest) entries result named h =
    read_entries-Named is_configured rest (put entry.binding.public_name entry entries) result
      (put-Named entry entries named) (ground arith)

-- A new queue has no stream, and then the control stream alone.
new_queue-Empty :
    {N : Type 0} (options : RouterOptions N) (q : DeliveryQueue)
    → new_queue options ≡ ok q
    → IsValid q × ((k : Text) → is_stream k q ≡ false)
unfolding new_queue Queue.init lookup
new_queue-Empty options q h = ((init-IsValid (queue_options options) q h).0, λ k. ground arith)

add_control-Streams :
    (max_requests : ℕ) (empty queue : DeliveryQueue)
    → IsValid empty
    → add_control max_requests empty ≡ ok queue
    → IsValid queue
      × ((k : Text) → k ≢ control_stream → is_stream k queue ≡ is_stream k empty)
      × (is_stream control_stream queue ≡ true)
unfolding add_control
add_control-Streams max_requests empty queue v h =
    elim (register-streams control_stream (codes "reliable") max_requests empty) [
      | inl (done, others, there, _) ↦
          let same : (register control_stream (codes "reliable") max_requests empty).1 ≡ queue =
            ground arith in
          (
            subst IsValid same
                (register-IsValid control_stream (codes "reliable") max_requests empty v),
            subst (λ q. (k : Text) → k ≢ control_stream → is_stream k q ≡ is_stream k empty) same
                others,
            subst (λ q. is_stream control_stream q ≡ true) same there,
          )
      | inr (code, refused) ↦ absurd (ground arith)
    ]

-- The assembled router has the control stream and nothing else.
module _ {W N : Type 0} (P : W → Type 0) (options : RouterOptions N) (guard : CommandGuard)
    (world : W) where
  pub assembled-Sound :
      (entries : List (Text × RouterBinding N)) (empty queue : DeliveryQueue)
      → P world
      → Named entries
      → new_queue options ≡ ok empty
      → add_control options.max_requests empty ≡ ok queue
      → Sound P (OnCache Accounting.IsValid) (assembled options entries queue guard world)
  unfolding lookup
  assembled-Sound entries empty queue p named new added =
      let (v, none_there) = new_queue-Empty options empty new in
      let (valid, others, there) = add_control-Streams options.max_requests empty queue v added in
      record {
        world = p;
        kept =
            Accounting.init-IsValid options.max_requests options.request_ttl_ms
              options.max_peer_queue_bytes;
        queue = valid;
        tables = record {
          fits = omega arith;
          listed = λ k h. elim (text_discrete k control_stream) [
            | yes i ↦ inl i
            | no i ↦ absurd (cc (others k i, none_there k, h))
          ];
          served = λ k h. absurd (cc (h));
          apart = refl;
          opened = λ _. there;
        };
        named = named;
      }

  assemble-Sound :
      (r : SessionRouter W N)
      → P world
      → assemble options guard world ≡ ok r
      → Sound P (OnCache Accounting.IsValid) r × (r.closed ≡ false)
  unfolding assemble
  assemble-Sound r p h =
      let (_, _, h1) = bind_ok (check_limits options) _ r h in
      let (_, _, h2) = bind_ok (identifier options.epoch) _ r h1 in
      let (entries, read, h3) =
        bind_ok (read_entries options.is_configured options.bindings []) _ r h2 in
      let (empty, new, h4) = bind_ok (new_queue options) _ r h3 in
      let (queue, added, h5) = bind_ok (add_control options.max_requests empty) _ r h4 in
      let named =
        read_entries-Named options.is_configured options.bindings [] entries
          (λ k e found. absurd (cc (found))) read in
      let same : assembled options entries queue guard world ≡ r = ground arith in
      subst (λ q. Sound P (OnCache Accounting.IsValid) q × (q.closed ≡ false)) same
        (assembled-Sound entries empty queue p named new added, refl)

now_closed :
    {W N : Type 0} (out : Outside W N) (r : SessionRouter W N) → (now out r).1.closed ≡ r.closed
unfolding now read_time
now_closed out r = go (out.clock r.world).0
  where
    go :
        (reading : Reading)
        → (read_time reading (record r { world = (out.clock r.world).1 })).1.closed ≡ r.closed
    go (at value) = ground arith
    go below_zero = refl
    go not_finite = refl

module _ {W N : Type 0} {P : W → Type 0} (out : Outside W N) (laws : Respects out P) where
  -- What the constructor gives: an open router in its invariant, or an error, with `P` of the outside.
  abbrev pub Started : Outcome (SessionRouter W N) × (CommandGuard × W) → Type 0
  Started (ok r, (guard, world)) = Sound P (OnCache Accounting.IsValid) r × (r.closed ≡ false)
  Started (throw e, (guard, world)) = P world

  enter-Ensures :
      (r : SessionRouter W N)
      → Sound P (OnCache Accounting.IsValid) r × (r.closed ≡ false)
      → Ensures
          (λ q. P q.world)
          (λ _ q. Sound P (OnCache Accounting.IsValid) q × (q.closed ≡ false))
          (enter out r)
  unfolding enter continue
  enter-Ensures r (s, open_) = Ensures-continue (now-Open r s open_) λ _ q (t, still).
      let after : (session_id : Text)
          → Sound P (OnCache Accounting.IsValid) (record q {
            guard = (Guard.open_session q.epoch q.guard).1;
            session_id = session_id;
          }) =
        λ session_id. record {
          world = t.world;
          kept = t.kept;
          queue = t.queue;
          tables = t.tables;
          named = t.named;
        } in
      Ensures-continue
        {Q = λ _ q'.
          (session_id : Text)
          → Sound P (OnCache Accounting.IsValid) (record q' { session_id = session_id })
            × (q'.closed ≡ false)}
        (Ensures-any _ t.world (λ _ _ session_id. (after session_id, still)))
        (λ session_id _ h. returned (h session_id))
    where
      now-Open :
          (r : SessionRouter W N)
          → Sound P (OnCache Accounting.IsValid) r
          → r.closed ≡ false
          → Ensures
              (λ q. P q.world)
              (λ _ q. Sound P (OnCache Accounting.IsValid) q × (q.closed ≡ false))
              (now out r)
      now-Open r s open_ =
          let after =
            Ensures-state (Keeps-now P (OnCache Accounting.IsValid) out laws r s) (λ _ _ t. t) in
          Ensures-any (now out r) after.world (λ _ _. (after, now_closed out r ∙ open_))

  -- If the outside's property holds and every call of the outside keeps it, then the constructor throws,
  -- and the property still holds, or it gives a router that is open and in its invariant.
  pub construct-Started :
      (options : RouterOptions N) (guard : CommandGuard) (world : W)
      → P world
      → Started (construct out options (guard, world))
  unfolding construct
  construct-Started options guard world p = go (assemble options guard world) refl
    where
      Open : SessionRouter W N → Type 0
      Open r = Sound P (OnCache Accounting.IsValid) r × (r.closed ≡ false)

      made-Started :
          {a : Outcome (Unit {0}) × SessionRouter W N}
          → Ensures (λ r. P r.world) (λ _. Open) a
          → Started (made out a)
      made-Started (returned h) = h
      made-Started (threw h) = h

      go :
          (a : Outcome (SessionRouter W N))
          → assemble options guard world ≡ a
          → Started (elim a as (λ _. Outcome (SessionRouter W N) × (CommandGuard × W)) [
            | throw e ↦ (throw e, (guard, world))
            | ok r ↦ made out (enter out r)
          ])
      go (throw e) h = p
      go (ok r) h = made-Started (enter-Ensures r (assemble-Sound P options guard world r p h))
