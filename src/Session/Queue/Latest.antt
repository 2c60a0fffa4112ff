-- ===== src/Session/Queue/Latest.antt =====
-- delivery-queue.ts: a stream of the latest policy holds the newest sample alone, and counts what it
-- drops.
use package.ros_webrtc_bridge.Prelude.{
  ◌+◌, ◌≤◌, ◌<◌, ◌≡◌, true, false, some, [], ◌∷◌, length, Text, ◌⊎◌, arith,
}
use package.ros_webrtc_bridge.Prelude.Dict.{lookup, lookup-put_self}
use package.ros_webrtc_bridge.Runtime.Outcome.{ok, throw, message_size}
use package.ros_webrtc_bridge.Session.Queue.{
  Bytes, latest, Stream, DeliveryQueue, stream_bytes, release, overflow, store, enqueue_to, enqueue,
}
use package.ros_webrtc_bridge.Session.Queue.Accounting.{IsValid, found-IsBounded, found-bytes}
use package.ros_webrtc_bridge.Session.Queue.History.{pending}

-- On a stream of the latest policy in a valid queue: an empty message, or one above the limit of a
-- message, throws and changes nothing. Any other is taken, and is then all that the stream holds, if it
-- fits in the budget together with all that the queue holds but the stream's own samples; and if it does
-- not fit it is dropped and the stream holds nothing. In both cases the samples held by the stream and
-- dropped by the queue, together, are one more than before.
pub enqueue_latest :
    (q : DeliveryQueue) (id : Text) (s : Stream) (m : Bytes)
    → IsValid q
    → lookup id q.streams ≡ some s
    → s.policy ≡ latest
    → let r = enqueue id m q in
      ((length m ≡ 0) ⊎ (q.max_message_bytes < length m)) × (r ≡ (throw message_size, q))
      ⊎ (0 < length m)
        × (length m ≤ q.max_message_bytes)
        × ((q.bytes + length m ≤ q.max_bytes + stream_bytes s)
              × (r.0 ≡ ok true)
              × (pending id r.1 ≡ m ∷ [])
            ⊎ (q.max_bytes + stream_bytes s < q.bytes + length m)
              × (r.0 ≡ ok false)
              × (pending id r.1 ≡ []))
        × (length (pending id r.1) + r.1.dropped ≡ length s.messages + q.dropped + 1)
unfolding enqueue enqueue_to store overflow release pending
enqueue_latest q id s m v found kind =
    let b = found-IsBounded q id s v found in
    let held = found-bytes q id s v found in
    grind (arith, lookup-put_self, b.within, b.single, b.drained, b.lossless, b.positive)
