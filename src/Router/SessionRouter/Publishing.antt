-- ===== src/Router/SessionRouter/Publishing.antt =====
-- router/index.ts: `publish`, a Web message that goes to ROS.
use package.ros_webrtc_bridge.Prelude.{
  ℕ, ◌+◌, Bool, true, false, not, ◌&&◌, ◌||◌, Option, none, some, [], ◌∷◌, is_some, ltb, Text,
  codes, same_text, pos, leb_ℤ,
}
use package.ros_webrtc_bridge.Prelude.Dict.{lookup, put}
use package.ros_webrtc_bridge.Runtime.Outcome.{
  invalid_publish, invalid_channel, publish_rate_or_sequence, unexpected_lease,
}
use package.ros_webrtc_bridge.Runtime.Exec.{
  Exec, pure, lift, gets, ensure, modify, continue, ◌>>=◌, ◌>>◌,
}
use package.ros_webrtc_bridge.Runtime.Decimal.{print}
use package.ros_webrtc_bridge.Config.{period_ms}
use package.ros_webrtc_bridge.Session.Validation.{sequence}
use package.ros_webrtc_bridge.Session.Guard
use package.ros_webrtc_bridge.Session.Guard.{CommandRequest, CommandTicket}
use package.ros_webrtc_bridge.Router.Protocol.{Wire, Value, text, other, fields, text_field}
use package.ros_webrtc_bridge.Router.SessionRouter.{
  Channel, data_channel, same_channel, publishing, RouterBinding, Outside, SessionRouter, Publisher,
  on_world, on_guard, now, entry_of,
}
use package.ros_webrtc_bridge.Router.SessionRouter.Sending.{respond}
use package.ros_webrtc_bridge.Router.SessionRouter.Operations.{find_publisher}

abbrev pub names_epoch : Option Value → Text → Bool
names_epoch (some (text t)) epoch = same_text t epoch
names_epoch (some (other json)) epoch = false
names_epoch none epoch = false

abbrev pub is_current : {W N : Type 0} → Wire → SessionRouter W N → Bool
is_current wire r =
    r.welcomed
    && same_text wire.op (codes "publish")
    && names_epoch (lookup (codes "epoch") wire.rest) r.epoch

-- A number that is not after the last, or a message before its time.
abbrev pub is_early : {N : Type 0} → Publisher N → ℕ → ℕ → Bool
is_early publisher seq time = leb_ℤ (pos seq) publisher.seq || ltb time publisher.next_at

-- What `publish` has checked before the message is decoded.
pub record Accepted (N : Type 0) : Type 0 where
  pub handle : Text
  pub publisher : Publisher N
  pub entry : RouterBinding N
  pub seq : ℕ
  pub time : ℕ

module _ {W N : Type 0} (out : Outside W N) where
  unfoldable pub accept : Channel → Wire → Exec (SessionRouter W N) (Accepted N)
  unfolding continue
  accept channel wire = do
    lift (
        fields wire (
          codes "id"
          ∷ codes "handle"
          ∷ codes "epoch"
          ∷ codes "seq"
          ∷ codes "lease_id"
          ∷ codes "data"
          ∷ []))
    current ← gets (is_current wire)
    ensure current invalid_publish
    handle ← lift (text_field wire (codes "handle"))
    found ← gets (find_publisher handle)
    publisher ← lift found
    may ← gets (entry_of out publisher.entry.binding.public_name publishing)
    entry ← lift may
    ensure (same_channel channel (data_channel entry.binding.delivery)) invalid_channel
    seq_text ← lift (text_field wire (codes "seq"))
    seq ← lift (sequence seq_text)
    time ← now out
    ensure (not (is_early publisher seq time)) publish_rate_or_sequence
    pure (record { handle = handle; publisher = publisher; entry = entry; seq = seq; time = time })

  -- A ticket for a guarded topic; a lease has no place on another.
  unfoldable pub take_ticket : Wire → Accepted N → Exec (SessionRouter W N) (Option CommandTicket)
  unfolding continue
  take_ticket wire a = elim a.publisher.guarded [
    | true ↦ do
      lease_id ← lift (text_field wire (codes "lease_id"))
      session_id ← gets (λ r. r.session_id)
      epoch ← gets (λ r. r.epoch)
      ticket ← on_guard out.guard_host (λ host. Guard.prepare host (record {
        session_id = session_id;
        epoch = epoch;
        handle = a.handle;
        lease_id = lease_id;
        seq = print a.seq;
      }))
      pure (some ticket)
    | false ↦ do
      ensure (not (is_some (lookup (codes "lease_id") wire.rest))) unexpected_lease
      pure none
  ]

  -- The function that is passed to the ticket.
  unfoldable pub send_to_ros : RouterBinding N → N → Exec (SessionRouter W N) (Unit {0})
  unfolding continue
  send_to_ros entry native = do
    may ← gets (entry_of out entry.binding.public_name publishing)
    lift may
    lift (entry.codec.encode native)
    on_world (out.ros_publish entry.binding.public_name native)

  -- `ticket.publish(send)` of a ticket just issued: the guard reserves the number, then `send` runs.
  unfoldable pub send_with :
      Option CommandTicket → RouterBinding N → N → Exec (SessionRouter W N) (Unit {0})
  unfolding continue
  send_with none entry native = send_to_ros entry native
  send_with (some ticket) entry native = do
    on_guard out.guard_host (λ host. Guard.reserve host ticket.request ticket.seq)
    send_to_ros entry native

  unfoldable pub publish : Channel → Wire → Exec (SessionRouter W N) (Unit {0})
  unfolding continue
  publish channel wire = do
    a ← accept channel wire
    native ← lift (a.entry.codec.decode (lookup (codes "data") wire.rest))
    ticket ← take_ticket wire a
    modify (λ r. record r {
      publishers =
          put a.handle
            (record (a.publisher) {
              seq = pos a.seq;
              next_at = a.time + period_ms a.entry.binding.max_rate_hz;
            })
            r.publishers;
    })
    send_with ticket a.entry native
    respond out (record {
      op = codes "published_to_ros";
      rest = (codes "handle", text a.handle) ∷ (codes "seq", text (print a.seq)) ∷ [];
    })
