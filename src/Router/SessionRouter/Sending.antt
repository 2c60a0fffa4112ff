-- ===== src/Router/SessionRouter/Sending.antt =====
-- router/index.ts: sending, closing, and the error reply, which call each other.
--
-- `flush` discards a subscription that is no longer allowed, replies with an error, and so flushes again;
-- the reply closes the router if it cannot be queued. Each round through `flush` takes a subscription
-- away, so one more unit of fuel than there are subscriptions is enough. `drain` takes a message away in
-- each round.
use package.ros_webrtc_bridge.Prelude.{
  ℕ, zero, suc, ◌+◌, Bool, true, false, not, Option, none, some, List, [], ◌∷◌, if◌then◌else◌,
  is_some, length, Text, codes,
}
use package.ros_webrtc_bridge.Prelude.Dict.{lookup, delete}
use package.ros_webrtc_bridge.Runtime.Outcome.{
  Outcome, ok, throw, or_throw, require, unknown_stream, router_closed, cleanup_failed, out_of_fuel,
}
use package.ros_webrtc_bridge.Runtime.Exec.{
  Exec, pure, lift, gets, ensure, modify, continue, recover, attempt, ◌>>=◌, ◌>>◌,
}
use package.ros_webrtc_bridge.Session.Queue
use package.ros_webrtc_bridge.Session.Queue.{
  Stream, DeliveryQueue, Bytes, peek, enqueue, dequeue, close_stream,
}
use package.ros_webrtc_bridge.Session.Guard.{revoke_session}
use package.ros_webrtc_bridge.Router.Protocol.{Wire, text}
use package.ros_webrtc_bridge.Router.RequestCache
use package.ros_webrtc_bridge.Router.SessionRouter.{
  Channel, control, data_channel, Outside, VideoPort, SessionRouter, Subscription, subscribing,
  control_stream, on_world, on_queue, entry_of, encode_wire,
}

-- How many messages a stream holds.
abbrev pub held : Option Stream → ℕ
held none = 0
held (some s) = length s.messages

abbrev pub error_wire : Option Text → Wire
error_wire none = record {
  op = codes "error";
  rest = (codes "code", text (codes "request_rejected")) ∷ [];
}
error_wire (some id) = record {
  op = codes "error";
  rest = (codes "id", text id) ∷ (codes "code", text (codes "request_rejected")) ∷ [];
}

module _ {W N A : Type 0} where
  abbrev pub no_fuel : Exec (SessionRouter W N) A
  no_fuel = lift (throw out_of_fuel)

module _ {W N : Type 0} where
  unfoldable pub find_subscription : Text → SessionRouter W N → Outcome (Subscription N)
  unfolding lookup
  find_subscription id r = or_throw (lookup id r.subscriptions) unknown_stream

  -- The tail of `close`: what is held is let go, and the session is not open any more.
  unfoldable pub let_go : SessionRouter W N → SessionRouter W N
  let_go r = record r {
    subscriptions = [];
    publishers = [];
    queue = Queue.clear r.queue;
    cache = RequestCache.clear r.cache;
  }

module _ {W N : Type 0} (out : Outside W N) where
  -- The loop of `drain` on fuel; `last` is what is done without any.
  unfoldable pub drain_on :
      Exec (SessionRouter W N) Bool → ℕ → Text → Channel → Exec (SessionRouter W N) Bool
  unfolding continue
  drain_on last zero id channel = last
  drain_on last (suc fuel) id channel = do
    next ← gets (λ r. peek id r.queue)
    head ← lift next
    elim head [
      | none ↦ pure true
      | some message ↦ do
        sent ← on_world (out.send channel message)
        elim sent [
          | false ↦ pure false
          | true ↦ on_queue (dequeue id) >>= λ _. drain_on last fuel id channel
        ]
    ]

  unfoldable pub drain : Text → Channel → Exec (SessionRouter W N) Bool
  unfolding lookup
  drain id channel r = drain_on no_fuel (held (lookup id r.queue.streams) + 1) id channel r

  unfoldable pub respond : Wire → Exec (SessionRouter W N) (Unit {0})
  unfolding continue
  respond wire = do
    closed ← gets (λ r. r.closed)
    ensure (not closed) router_closed
    max_bytes ← gets (λ r. r.max_bytes)
    bytes ← lift (encode_wire out wire max_bytes)
    on_queue (enqueue control_stream bytes)
    pure tt

  unfoldable pub remove_subscription : Text → Exec (SessionRouter W N) (Unit {0})
  unfolding continue
  remove_subscription id = do
    found ← gets (find_subscription id)
    lift found
    modify (λ r. record r { subscriptions = delete id r.subscriptions })
    on_queue (close_stream id)
    on_world (out.unsubscribe id)

  abbrev pub video_call : (VideoPort W → Exec W (Unit {0})) → Exec (SessionRouter W N) (Unit {0})
  video_call m = elim out.video [ none ↦ pure tt | some port ↦ on_world (m port) ]

  -- The listeners are released whether or not one throws; the result says whether all went well.
  unfoldable pub unsubscribe_all :
      List (Text × Subscription N) → SessionRouter W N → Bool × SessionRouter W N
  unsubscribe_all [] r = (true, r)
  unsubscribe_all ((id, s) ∷ rest) r =
      let (outcome, r') = on_world (out.unsubscribe id) r in
      let (clean, r'') = unsubscribe_all rest r' in
      (elim outcome [ ok _ ↦ clean | throw _ ↦ false ], r'')

  -- `close` behind the media plane's part.
  unfoldable pub finish : Exec (SessionRouter W N) (Unit {0})
  unfolding unsubscribe_all let_go
  finish r =
      let revoked : SessionRouter W N = record r { guard = revoke_session r.session_id r.guard } in
      let (clean, r') = unsubscribe_all r.subscriptions revoked in
      let emptied : SessionRouter W N = let_go r' in
      (require clean cleanup_failed, record emptied { world = out.on_closed emptied.world })

  unfoldable pub close : Exec (SessionRouter W N) (Unit {0})
  unfolding continue finish
  close r =
      if r.closed
      then (ok tt, r)
      else (do modify (λ r. record r { closed = true }); video_call (λ port. port.close); finish) r

  module _ (flush : Exec (SessionRouter W N) (Unit {0})) where
    unfoldable pub error_with : Option Text → Exec (SessionRouter W N) (Unit {0})
    unfolding continue recover
    error_with id r =
        if r.closed then (ok tt, r) else attempt (respond (error_wire id) >> flush) (λ _. close) r

    -- A subscription that is not allowed any more: it goes, if it is still there, and the peer is told.
    unfoldable pub discard : Text → Exec (SessionRouter W N) (Unit {0})
    unfolding continue
    discard id = do
      there ← gets (λ r. is_some (lookup id r.subscriptions))
      elim there [ true ↦ remove_subscription id | false ↦ pure tt ]
      error_with none

    -- The loop of `flush` over the subscriptions.
    unfoldable pub flush_each : List (Text × Subscription N) → Exec (SessionRouter W N) (Unit {0})
    unfolding continue
    flush_each [] = pure tt
    flush_each ((id, s) ∷ rest) = do
      may ← gets (entry_of out s.entry.binding.public_name subscribing)
      elim may [
        | throw _ ↦ discard id
        | ok entry ↦ do
          empty ← drain id (data_channel s.entry.binding.delivery)
          elim empty [ true ↦ flush_each rest | false ↦ pure tt ]
      ]

    unfoldable pub flush_body : Exec (SessionRouter W N) (Unit {0})
    unfolding continue
    flush_body r =
        if r.closed
        then (ok tt, r)
        else (do
          video_call (λ port. port.revalidate)
          empty ← drain control_stream control
          subscriptions ← gets (λ r. r.subscriptions)
          elim empty [ true ↦ flush_each subscriptions | false ↦ pure tt ])
            r

  -- The rounds through `flush` on fuel; `last` is what is done without any.
  unfoldable pub flush_on :
      Exec (SessionRouter W N) (Unit {0}) → ℕ → Exec (SessionRouter W N) (Unit {0})
  unfolding flush_body
  flush_on last zero = last
  flush_on last (suc fuel) = flush_body (flush_on last fuel)

  unfoldable pub flush : Exec (SessionRouter W N) (Unit {0})
  unfolding flush_on
  flush r = flush_on no_fuel (length r.subscriptions + 1) r

  unfoldable pub error : Option Text → Exec (SessionRouter W N) (Unit {0})
  unfolding error_with
  error id r = error_with (flush_on no_fuel (length r.subscriptions + 1)) id r
