-- ===== src/Session/Queue/Accounting.antt =====
-- delivery-queue.ts: the byte accounting and the limits, and the registrations.
use package.ros_webrtc_bridge.Prelude.{
  ap, ℕ, ◌+◌, ◌≤◌, ◌<◌, ◌≡◌, refl, true, false, none, some, [], length, All, sum_of, Text, arith,
}
use package.ros_webrtc_bridge.Prelude.Dict.{
  lookup, put, Distinct, AllValues, total, put-Distinct, total-put_old, total-put_new, total-delete,
  length-put_old, length-put_new, AllValues-put, AllValues-lookup,
}
use package.ros_webrtc_bridge.Runtime.Outcome.{Outcome, ok, throw}
use package.ros_webrtc_bridge.Session.Queue.{
  Bytes, latest, reliable, Stream, QueueOptions, DeliveryQueue, stream_bytes, init, new_stream,
  register,
}

-- A message that the queue takes: not empty, and within the limit of a message.
abbrev pub IsSized : QueueOptions → Bytes → Type 0
IsSized o m = (0 < length m) × (length m ≤ o.max_message_bytes)

pub record IsBounded (o : QueueOptions) (s : Stream) : Type 0 where
  pub within : length s.messages ≤ s.max_messages
  pub positive : 0 < s.max_messages
  pub drained : s.stopped ≡ true → s.messages ≡ []
  pub single : s.policy ≡ latest → s.max_messages ≡ 1
  pub lossless : s.stopped ≡ true → s.policy ≡ reliable
  pub sizes : All (IsSized o) s.messages

pub record IsValid (q : DeliveryQueue) : Type 0 where
  pub distinct : Distinct q.streams
  pub counted : q.bytes ≡ total stream_bytes q.streams
  pub budget : q.bytes ≤ q.max_bytes
  pub fits : length q.streams ≤ q.max_streams
  pub each : AllValues (IsBounded q.options) q.streams

-- A stream's object is written and the byte count with it.
pub set_stream-IsValid :
    (q : DeliveryQueue) (id : Text) (s s' : Stream) (b d : ℕ)
    → IsValid q
    → lookup id q.streams ≡ some s
    → b + stream_bytes s ≡ q.bytes + stream_bytes s'
    → b ≤ q.max_bytes
    → IsBounded q.options s'
    → IsValid (record q { streams = put id s' q.streams; bytes = b; dropped = d })
set_stream-IsValid q id s s' b d v found sum room bounded = record {
  distinct = put-Distinct id s' q.streams v.distinct;
  counted = omega (arith, total-put_old stream_bytes id s' s q.streams found, v.counted);
  budget = room;
  fits = omega (arith, length-put_old id s' s q.streams found, v.fits);
  each = AllValues-put (IsBounded q.options) id s' q.streams bounded v.each;
}

-- The stream found is within its limits and its bytes are among those counted.
pub found-IsBounded :
    (q : DeliveryQueue) (id : Text) (s : Stream)
    → IsValid q
    → lookup id q.streams ≡ some s
    → IsBounded q.options s
found-IsBounded q id s v found = AllValues-lookup (IsBounded q.options) id s q.streams found v.each

pub found-bytes :
    (q : DeliveryQueue) (id : Text) (s : Stream)
    → IsValid q
    → lookup id q.streams ≡ some s
    → stream_bytes s ≤ q.bytes
found-bytes q id s v found =
    omega (arith, total-delete stream_bytes id s q.streams v.distinct found, v.counted)

-- A new queue is valid.
pub init-IsValid :
    (o : QueueOptions) (q : DeliveryQueue) → init o ≡ ok q → IsValid q × (q.options ≡ o)
unfolding init
init-IsValid o q e = ground arith

pub new_stream-eq-ok :
    (id policy : Text) (max : ℕ) (q : DeliveryQueue) (s : Stream)
    → new_stream id policy max q ≡ ok s
    → (lookup id q.streams ≡ none)
      × (length q.streams < q.max_streams)
      × (0 < s.max_messages)
      × (s.policy ≡ latest → s.max_messages ≡ 1)
      × (s.messages ≡ [])
      × (s.stopped ≡ false)
unfolding new_stream
new_stream-eq-ok id policy max q s e = ground arith

pub empty-IsBounded :
    (o : QueueOptions) (s : Stream)
    → 0 < s.max_messages
    → (s.policy ≡ latest → s.max_messages ≡ 1)
    → s.messages ≡ []
    → s.stopped ≡ false
    → IsBounded o s
empty-IsBounded o s pos one empty running = record {
  within = rw empty (omega arith);
  positive = pos;
  drained = λ _. empty;
  single = one;
  lossless = λ h. absurd (cc);
  sizes = rw empty tt;
}

pub register-IsValid :
    (id policy : Text) (max : ℕ) (q : DeliveryQueue)
    → IsValid q
    → IsValid (register id policy max q).1
unfolding register
register-IsValid id policy max q v = go (new_stream id policy max q) refl
  where
    go :
        (r : Outcome Stream) → new_stream id policy max q ≡ r → IsValid (register id policy max q).1
    go (throw e) h = rw (h, register) v
    go (ok s) h =
        let (fresh, room, pos, one, empty, running) = new_stream-eq-ok id policy max q s h in
        rw (h, register)
          (record {
            distinct = put-Distinct id s q.streams v.distinct;
            counted = omega (
              arith,
              total-put_new stream_bytes id s q.streams fresh,
              v.counted,
              ap (sum_of length) empty,
            );
            budget = v.budget;
            fits = omega (arith, length-put_new id s q.streams fresh);
            each =
                AllValues-put (IsBounded q.options) id s q.streams
                  (empty-IsBounded q.options s pos one empty running) v.each;
          })
