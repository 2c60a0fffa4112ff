-- ===== src/Router/SessionRouter/Calls.antt =====
-- router/index.ts: the calls from outside keep the router's invariant.
use package.ros_webrtc_bridge.Prelude.{
  ℕ, ◌+◌, ◌≡◌, refl, Bool, true, false, ltb, leb, ◌==◌, ◌/◌, Option, none, some, is_some, if_cases,
  if◌then◌else◌, Text, arith,
}
use package.ros_webrtc_bridge.Prelude.Dict.{lookup, put, lookup-put_self}
use package.ros_webrtc_bridge.Runtime.Outcome.{
  Outcome, ok, or_throw, require, invalid_channel, control_rate,
}
use package.ros_webrtc_bridge.Runtime.Exec.{
  continue, recover, attempt, gets, lift, pure, ◌>>◌, Keeps, Keeps-then, Keeps-lift, Keeps-gets,
  Keeps-pure, Keeps-if, Keeps-Bool, Keeps-attempt, Keeps-settle, Ensures, returned, threw,
  Ensures-continue, Ensures-lift, Ensures-map,
}
use package.ros_webrtc_bridge.Runtime.Decimal.{print}
use package.ros_webrtc_bridge.Config.{period_ms}
use package.ros_webrtc_bridge.Session.Validation.{sequence}
use package.ros_webrtc_bridge.Session.Queue.{Bytes, enqueue}
use package.ros_webrtc_bridge.Router.Protocol.{Wire}
use package.ros_webrtc_bridge.Router.RequestCache
use package.ros_webrtc_bridge.Router.RequestCache.{RequestCache}
use package.ros_webrtc_bridge.Router.RequestCache.Accounting
use package.ros_webrtc_bridge.Router.SessionRouter.{
  Channel, control, reliable_data, realtime_data, channel_of, subscribing, RouterBinding, Outside,
  Subscription, SessionRouter, on_queue, now, count_control, check_rate, limit_control, entry_of,
  encode_wire,
}
use package.ros_webrtc_bridge.Router.SessionRouter.Sending.{remove_subscription, respond, flush}
use package.ros_webrtc_bridge.Router.SessionRouter.Entry.{
  request_id, parse_wire, limit_channel, read_message, dispatch, handle_message, receive, emit,
  message_wire, deliver, drop_sample, sample, event,
}
use package.ros_webrtc_bridge.Router.SessionRouter.Invariant.{
  Respects, Kept, Removed, Cleared, Sound, Sound-map, Tables-subscription, Keeps-enqueue, Keeps-now,
}
use package.ros_webrtc_bridge.Router.SessionRouter.Flushing.{
  respond-Keeps, remove_subscription-Keeps, flush-Keeps, error-Keeps,
}
use package.ros_webrtc_bridge.Router.SessionRouter.Requests.{OnCache}
use package.ros_webrtc_bridge.Router.SessionRouter.Answering.{control-Keeps}
use package.ros_webrtc_bridge.Router.SessionRouter.Publication.{I, publish-Keeps}

-- What is kept is that of the cache, and one subscription.
abbrev Live : {N : Type 0} → Text → Subscription N → Kept N
Live id x c s p = Accounting.IsValid c × (lookup id s ≡ some x)

pub cleared : {N : Type 0} → Cleared {N = N} (OnCache Accounting.IsValid)
unfolding RequestCache.clear
cleared c s p v = record {
  distinct = tt;
  counted = refl;
  fits = omega arith;
  budget = omega arith;
  charged = tt;
}

pub removed : {N : Type 0} → Removed {N = N} (OnCache Accounting.IsValid)
removed id c s p v = v

module _ {W N : Type 0} {P : W → Type 0} (out : Outside W N) (laws : Respects out P) where
  -- The message of a sample: the next number is taken before the message is encoded.
  message-Ensures :
      (id : Text) (x : Subscription N) (native : N) (time : ℕ) (e : RouterBinding N)
      (r : SessionRouter W N)
      → Sound P (Live id x) r
      → Ensures (I out laws) (λ _. I out laws) (emit out id x native time e r)
  unfolding emit continue
  message-Ensures id x native time e r s = Ensures-lift (sequence (print x.seq)) _ paced λ _ _.
      Ensures-lift (e.codec.encode native) _ paced λ data_ _.
        Ensures-lift (encode_wire out (message_wire id r.epoch x.seq data_) r.max_bytes) _ counted
          λ bytes _.
            Keeps-then (on_queue (enqueue id bytes)) _
              (Keeps-enqueue P (OnCache Accounting.IsValid) id bytes)
              (λ _. flush-Keeps out laws cleared removed) _ counted
    where
      paced_one : Subscription N
      paced_one = record x { next_at = time + period_ms e.binding.max_rate_hz }

      counted_one : Subscription N
      counted_one = record paced_one { seq = x.seq + 1 }

      paced : I out laws (record r { subscriptions = put id paced_one r.subscriptions })
      paced = record {
        world = s.world;
        kept = s.kept.0;
        queue = s.queue;
        tables = Tables-subscription _ _ _ _ _ id x paced_one s.kept.1 s.tables;
        named = s.named;
      }

      counted :
          I out laws
            (record r { subscriptions = put id counted_one (put id paced_one r.subscriptions) })
      counted = record {
        world = s.world;
        kept = s.kept.0;
        queue = s.queue;
        tables =
            Tables-subscription _ _ _ _ _ id paced_one counted_one
              (lookup-put_self id paced_one r.subscriptions) paced.tables;
        named = s.named;
      }

  pub deliver-Ensures :
      (id : Text) (x : Subscription N) (native : N) (r : SessionRouter W N)
      → Sound P (Live id x) r
      → Ensures (I out laws) (λ _. I out laws) (deliver out id x native r)
  unfolding deliver continue
  deliver-Ensures id x native r s =
      Ensures-lift (entry_of out x.entry.binding.public_name subscribing r) _
        (Sound-map r (λ k. k.0) s)
        λ e _.
          Ensures-continue
            (Ensures-map (Keeps-now P (Live id x) out laws r s) (λ q. Sound-map q (λ k. k.0))
              (λ _ _ h. h))
            λ time q t. paced time e q t (ltb time x.next_at)
    where
      paced :
          (time : ℕ) (e : RouterBinding N) (q : SessionRouter W N)
          → Sound P (Live id x) q
          → (early : Bool)
          → Ensures
              (I out laws)
              (λ _. I out laws)
              ((if early then pure tt else emit out id x native time e) q)
      paced time e q t true = returned (Sound-map q (λ k. k.0) t)
      paced time e q t false = message-Ensures id x native time e q t

  drop_sample-Keeps : (id : Text) → Keeps (I out laws) (drop_sample out id)
  unfolding drop_sample
  drop_sample-Keeps id =
      Keeps-then (gets (λ r. is_some (lookup id r.subscriptions))) _ (Keeps-gets _) λ there.
        Keeps-then (elim there [ true ↦ remove_subscription out id | false ↦ pure tt ]) _
          (Keeps-Bool there _ _ (remove_subscription-Keeps out laws removed id) (Keeps-pure tt))
          λ _. error-Keeps out laws cleared removed none

  pub sample-Keeps : (id : Text) (native : N) → Keeps (I out laws) (sample out id native)
  unfolding sample recover
  sample-Keeps id native r s = go (lookup id r.subscriptions) refl
    where
      caught :
          {q : Outcome (Unit {0}) × SessionRouter W N}
          → Ensures (I out laws) (λ _. I out laws) q
          → Ensures (I out laws) (λ _. I out laws) (recover q (λ _. drop_sample out id))
      caught (returned t) = returned t
      caught (threw t) = drop_sample-Keeps id _ t

      delivered :
          (x : Subscription N)
          → lookup id r.subscriptions ≡ some x
          → (ready : Bool)
          → Ensures
              (I out laws)
              (λ _. I out laws)
              (if ready
                then attempt (deliver out id x native) (λ _. drop_sample out id) r
                else (ok tt, r))
      delivered x e true = caught (deliver-Ensures id x native r (Sound-map r (λ k. (k, e)) s))
      delivered x e false = returned s

      go :
          (o : Option (Subscription N))
          → lookup id r.subscriptions ≡ o
          → Ensures
              (I out laws)
              (λ _. I out laws)
              (elim o as (λ _. Outcome (Unit {0}) × SessionRouter W N) [
                | none ↦ (ok tt, r)
                | some x ↦
                    if x.ready
                    then attempt (deliver out id x native) (λ _. drop_sample out id) r
                    else (ok tt, r)
              ])
      go none e = returned s
      go (some x) e = delivered x e x.ready

  pub event-Keeps : (wire : Wire) → Keeps (I out laws) (event out wire)
  unfolding event
  event-Keeps wire =
      Keeps-attempt (respond out wire >> flush out) _
        (Keeps-then (respond out wire) _ (respond-Keeps out laws wire)
          λ _. flush-Keeps out laws cleared removed)
        (λ _. error-Keeps out laws cleared removed none)

  check_rate-Keeps : (time : ℕ) → Keeps (I out laws) (check_rate out time)
  unfolding check_rate count_control
  check_rate-Keeps time r s =
      if_cases
        (λ q.
          Ensures (I out laws) (λ (_ : Unit {0}). I out laws)
            (require (leb q.control_count q.max_control_rate) control_rate, q))
        (time / 1000 == r.control_window) (λ _. Keeps-lift _ _ (same _))
        (λ _. Keeps-lift _ _ (same _))
    where
      same :
          (window : ℕ) {count : ℕ}
          → I out laws (record r { control_window = window; control_count = count })
      same window = record {
        world = s.world;
        kept = s.kept;
        queue = s.queue;
        tables = s.tables;
        named = s.named;
      }

  limit_channel-Keeps : (channel : Channel) → Keeps (I out laws) (limit_channel out channel)
  unfolding limit_control
  limit_channel-Keeps control =
      Keeps-then (now out) _ (Keeps-now P (OnCache Accounting.IsValid) out laws) check_rate-Keeps
  limit_channel-Keeps reliable_data = Keeps-pure tt
  limit_channel-Keeps realtime_data = Keeps-pure tt

  read_message-Keeps :
      (label : Text) (raw : Bytes) → Keeps (I out laws) (read_message out label raw)
  unfolding read_message
  read_message-Keeps label raw =
      Keeps-then (lift (or_throw (channel_of label) invalid_channel)) _ (Keeps-lift _) λ channel.
        Keeps-then (limit_channel out channel) _ (limit_channel-Keeps channel) λ _.
          Keeps-then (gets (λ r. r.max_bytes)) _ (Keeps-gets _) λ max_bytes.
            Keeps-then (lift (parse_wire out raw max_bytes)) _ (Keeps-lift _) λ wire.
              Keeps-then (lift (request_id wire)) _ (Keeps-lift _)
                λ id. Keeps-pure (channel, (wire, id))

  dispatch-Keeps :
      (channel : Channel) (wire : Wire) (id : Option Text)
      → Keeps (I out laws) (dispatch out channel wire id)
  dispatch-Keeps control wire id = control-Keeps out laws wire id
  dispatch-Keeps reliable_data wire id = publish-Keeps out laws reliable_data wire
  dispatch-Keeps realtime_data wire id = publish-Keeps out laws realtime_data wire

  pub receive-Keeps : (label : Text) (raw : Bytes) → Keeps (I out laws) (receive out label raw)
  unfolding receive handle_message
  receive-Keeps label raw =
      Keeps-if (λ r. r.closed) _ _ (Keeps-pure tt)
        (Keeps-settle (read_message out label raw) (handle_message out) _
          (read_message-Keeps label raw)
          (λ (channel, (wire, id)).
            Keeps-attempt (dispatch out channel wire id >> flush out) _
              (Keeps-then (dispatch out channel wire id) _ (dispatch-Keeps channel wire id)
                λ _. flush-Keeps out laws cleared removed)
              (λ _. error-Keeps out laws cleared removed id))
          (λ _. error-Keeps out laws cleared removed none))
