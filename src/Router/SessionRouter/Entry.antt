-- ===== src/Router/SessionRouter/Entry.antt =====
-- router/index.ts: the calls that come from outside: a message of the peer, a ROS sample, and an event of
-- the media plane.
use package.ros_webrtc_bridge.Prelude.{
  ℕ, ◌+◌, true, false, ◌||◌, Option, none, some, [], ◌∷◌, if◌then◌else◌, is_some, length, ltb, Text,
  codes, ◌==◌,
}
use package.ros_webrtc_bridge.Prelude.Dict.{lookup, put}
use package.ros_webrtc_bridge.Runtime.Outcome.{
  Outcome, ok, throw, or_throw, message_size, invalid_channel,
}
use package.ros_webrtc_bridge.Runtime.Exec.{
  Exec, pure, lift, gets, modify, continue, recover, attempt, settle, ◌>>=◌, ◌>>◌,
}
use package.ros_webrtc_bridge.Runtime.Decimal.{print}
use package.ros_webrtc_bridge.Config.{period_ms}
use package.ros_webrtc_bridge.Session.Validation.{sequence}
use package.ros_webrtc_bridge.Session.Queue.{Bytes, enqueue}
use package.ros_webrtc_bridge.Router.Protocol.{Wire, Value, text, text_field, read_envelope}
use package.ros_webrtc_bridge.Router.SessionRouter.{
  Channel, control, channel_of, subscribing, RouterBinding, Outside, SessionRouter, Subscription,
  on_queue, now, limit_control, entry_of, encode_wire,
}
use package.ros_webrtc_bridge.Router.SessionRouter.Sending.{
  remove_subscription, respond, flush, error,
}
use package.ros_webrtc_bridge.Router.SessionRouter.Operations
use package.ros_webrtc_bridge.Router.SessionRouter.Publishing.{publish}

-- The identifier of a request: absent, or a string that is an identifier.
abbrev pub some_text : Outcome Text → Outcome (Option Text)
some_text (ok t) = ok (some t)
some_text (throw e) = throw e

unfoldable pub request_id : Wire → Outcome (Option Text)
unfolding lookup
request_id wire =
    if is_some (lookup (codes "id") wire.rest)
    then some_text (text_field wire (codes "id"))
    else ok none

abbrev pub message_wire : Text → Text → ℕ → Value → Wire
message_wire id epoch seq data_ = record {
  op = codes "message";
  rest =
      (codes "stream_id", text id)
      ∷ (codes "epoch", text epoch)
      ∷ (codes "seq", text (print seq))
      ∷ (codes "data", data_)
      ∷ [];
}

module _ {W N : Type 0} (out : Outside W N) where
  unfoldable pub parse_wire : Bytes → ℕ → Outcome Wire
  unfolding read_envelope
  parse_wire bytes max_bytes =
      if length bytes == 0 || ltb max_bytes (length bytes)
      then throw message_size
      else elim (out.parse_json bytes) [ ok json ↦ read_envelope json | throw e ↦ throw e ]

  abbrev pub limit_channel : Channel → Exec (SessionRouter W N) (Unit {0})
  limit_channel control = limit_control out
  limit_channel _ = pure tt

  -- `receive` until the identifier of the request is known.
  unfoldable pub read_message :
      Text → Bytes → Exec (SessionRouter W N) (Channel × (Wire × Option Text))
  unfolding continue
  read_message label raw = do
    channel ← lift (or_throw (channel_of label) invalid_channel)
    limit_channel channel
    max_bytes ← gets (λ r. r.max_bytes)
    wire ← lift (parse_wire raw max_bytes)
    id ← lift (request_id wire)
    pure (channel, (wire, id))

  abbrev pub dispatch : Channel → Wire → Option Text → Exec (SessionRouter W N) (Unit {0})
  dispatch control wire id = Operations.control out wire id
  dispatch channel wire id = publish out channel wire

  unfoldable pub handle_message :
      Channel × (Wire × Option Text) → Exec (SessionRouter W N) (Unit {0})
  unfolding continue recover
  handle_message (channel, (wire, id)) =
      attempt (dispatch channel wire id >> flush out) (λ _. error out id)

  -- What is thrown before the identifier is known is answered without one.
  unfoldable pub receive : Text → Bytes → Exec (SessionRouter W N) (Unit {0})
  unfolding settle
  receive label raw r =
      if r.closed
      then (ok tt, r)
      else settle (read_message label raw r) handle_message (λ _. error out none)

  -- The tail of `sample`: the number is taken before the message is encoded.
  unfoldable pub emit :
      Text → Subscription N → N → ℕ → RouterBinding N → Exec (SessionRouter W N) (Unit {0})
  unfolding continue
  emit id subscription native time entry = do
    let paced : Subscription N = record subscription {
      next_at = time + period_ms entry.binding.max_rate_hz;
    }
    modify (λ r. record r { subscriptions = put id paced r.subscriptions })
    lift (sequence (print subscription.seq))
    data_ ← lift (entry.codec.encode native)
    epoch ← gets (λ r. r.epoch)
    max_bytes ← gets (λ r. r.max_bytes)
    modify (λ r. record r {
      subscriptions = put id (record paced { seq = subscription.seq + 1 }) r.subscriptions;
    })
    bytes ← lift (encode_wire out (message_wire id epoch subscription.seq data_) max_bytes)
    on_queue (enqueue id bytes)
    flush out

  -- `sample` behind its first test, in its `try`.
  unfoldable pub deliver : Text → Subscription N → N → Exec (SessionRouter W N) (Unit {0})
  unfolding continue
  deliver id subscription native = do
    may ← gets (entry_of out subscription.entry.binding.public_name subscribing)
    entry ← lift may
    time ← now out
    if ltb time subscription.next_at then pure tt else emit id subscription native time entry

  unfoldable pub drop_sample : Text → Exec (SessionRouter W N) (Unit {0})
  unfolding continue
  drop_sample id = do
    there ← gets (λ r. is_some (lookup id r.subscriptions))
    elim there [ true ↦ remove_subscription out id | false ↦ pure tt ]
    error out none

  unfoldable pub sample : Text → N → Exec (SessionRouter W N) (Unit {0})
  unfolding continue recover
  sample id native r = elim (lookup id r.subscriptions) [
    | none ↦ (ok tt, r)
    | some subscription ↦
        if subscription.ready
        then attempt (deliver id subscription native) (λ _. drop_sample id) r
        else (ok tt, r)
  ]

  -- An event of the media plane.
  unfoldable pub event : Wire → Exec (SessionRouter W N) (Unit {0})
  unfolding continue recover
  event wire = attempt (respond out wire >> flush out) (λ _. error out none)
