-- ===== src/Session/Queue.antt =====
-- packages/bridge/src/session/delivery-queue.ts: the bounded send queue of one peer. A payload is the
-- list of its bytes; the copies that the code makes of a buffer have no counterpart, since a list is
-- never written. A method returns its outcome beside the queue that it leaves.
pub mod Accounting
pub mod Traffic
pub mod History
pub mod Fifo
pub mod Latest
pub mod Names
mod Tests
use package.ros_webrtc_bridge.Prelude.{
  ℕ, ◌+◌, ◌-◌, ◌≡◌, Bool, true, false, not, ◌&&◌, ◌||◌, Option, none, some, List, [], ◌∷◌, ◌++◌,
  ite, ltb, leb, ◌==◌, if◌then◌else◌, is_some, length, sum_of, Text, codes, text_discrete,
}
use package.ros_webrtc_bridge.Prelude.Dict.{lookup, put, delete}
use package.ros_webrtc_bridge.Runtime.Outcome.{
  Outcome, ok, throw, require, commit, or_throw, ◌>>=◌, ◌>>◌, invalid_limit, invalid_policy,
  duplicate_stream, stream_limit, slow_consumer, message_size, unknown_stream,
}
use package.ros_webrtc_bridge.Session.Validation.{identifier, positive_limit}

abbrev pub Bytes : Type 0
Bytes = List ℕ

pub data Policy : Type 0 where
  latest reliable : Policy

pub record Stream : Type 0 where
  pub policy : Policy
  pub max_messages : ℕ
  pub messages : List Bytes
  pub stopped : Bool

pub record QueueOptions : Type 0 where
  pub max_streams : ℕ
  pub max_bytes : ℕ
  pub max_message_bytes : ℕ

pub record DeliveryQueue : Type 0 where
  pub options : QueueOptions
  pub open options use *
  pub streams : List (Text × Stream)
  pub bytes : ℕ
  pub dropped : ℕ

-- The bytes that a stream occupies.
abbrev pub stream_bytes : Stream → ℕ
stream_bytes s = sum_of length s.messages

abbrev pub is_latest : Policy → Bool
is_latest latest = true
is_latest reliable = false

-- The two policies by the texts that the callers write.
abbrev policy_of : Text → Option Policy
policy_of t =
    ite (text_discrete t (codes "latest")) (some latest)
      (ite (text_discrete t (codes "reliable")) (some reliable) none)

unfoldable pub init : QueueOptions → Outcome DeliveryQueue
unfolding positive_limit
init options = do
  positive_limit options.max_streams
  positive_limit options.max_bytes
  positive_limit options.max_message_bytes
  require (leb options.max_message_bytes options.max_bytes) invalid_limit
  ok (record { options = options; streams = []; bytes = 0; dropped = 0 })

-- The tests of `register`, in order, and the stream that it makes.
unfoldable pub new_stream : Text → Text → ℕ → DeliveryQueue → Outcome Stream
unfolding identifier positive_limit lookup
new_stream id policy max_messages q = do
  identifier id
  positive_limit max_messages
  kind ← or_throw (policy_of policy) invalid_policy
  require (not (is_latest kind && not (max_messages == 1))) invalid_limit
  require (not (is_some (lookup id q.streams))) duplicate_stream
  require (ltb (length q.streams) q.max_streams) stream_limit
  ok (record { policy = kind; max_messages = max_messages; messages = []; stopped = false })

unfoldable pub register : Text → Text → ℕ → DeliveryQueue → Outcome (Unit {0}) × DeliveryQueue
unfolding new_stream
register id policy max_messages q = commit q (do
  stream ← new_stream id policy max_messages q
  ok (tt, record q { streams = put id stream q.streams }))

-- `release`: the stream object is the map's, so the map is written too.
abbrev emptied : Stream → Stream
emptied s = record s { messages = [] }

unfoldable pub release : Text → Stream → DeliveryQueue → DeliveryQueue
release id s q = record q {
  streams = put id (emptied s) q.streams;
  bytes = q.bytes - stream_bytes s;
}

-- No room: a reliable stream stops and lets its bytes go, a latest one drops the new sample.
unfoldable pub overflow : Policy → Text → Stream → DeliveryQueue → Outcome Bool × DeliveryQueue
unfolding release
overflow reliable id s q = (throw slow_consumer, release id (record s { stopped = true }) q)
overflow latest id s q = (ok false, record q { dropped = q.dropped + 1 })

-- The part of `enqueue` that tests the room left and stores.
unfoldable pub store : Text → Bytes → Stream → DeliveryQueue → Outcome Bool × DeliveryQueue
unfolding overflow
store id message s q =
    if leb s.max_messages (length s.messages) || ltb (q.max_bytes - q.bytes) (length message)
    then overflow s.policy id s q
    else (
      ok true,
      record q {
        streams = put id (record s { messages = s.messages ++ message ∷ [] }) q.streams;
        bytes = q.bytes + length message;
      },
    )

-- `enqueue` once the stream is found: the latest policy discards its samples first.
unfoldable pub enqueue_to : Text → Bytes → Stream → DeliveryQueue → Outcome Bool × DeliveryQueue
unfolding store
enqueue_to id message s q =
    if s.stopped
    then (throw slow_consumer, q)
    else if length message == 0 || ltb q.max_message_bytes (length message)
    then (throw message_size, q)
    else if is_latest s.policy && ltb 0 (length s.messages)
    then store id message (emptied s)
        (release id s (record q { dropped = q.dropped + length s.messages }))
    else store id message s q

unfoldable pub enqueue : Text → Bytes → DeliveryQueue → Outcome Bool × DeliveryQueue
unfolding enqueue_to lookup
enqueue id message q = elim (lookup id q.streams) [
  | none ↦ (throw unknown_stream, q)
  | some s ↦ enqueue_to id message s q
]

-- `dequeue` once the stream is found: `messages.shift()`.
unfoldable pub shift : Text → Stream → DeliveryQueue → Option Bytes × DeliveryQueue
shift id s q = elim s.messages [
  | [] ↦ (none, q)
  | message ∷ rest ↦ (
    some message,
    record q {
      streams = put id (record s { messages = rest }) q.streams;
      bytes = q.bytes - length message;
    },
  )
]

unfoldable pub dequeue : Text → DeliveryQueue → Outcome (Option Bytes) × DeliveryQueue
unfolding shift lookup
dequeue id q = commit q (do
  s ← or_throw (lookup id q.streams) unknown_stream
  require (not s.stopped) slow_consumer
  ok (shift id s q))

abbrev head? : List Bytes → Option Bytes
head? [] = none
head? (m ∷ ms) = some m

unfoldable pub peek : Text → DeliveryQueue → Outcome (Option Bytes)
unfolding lookup
peek id q = do
  s ← or_throw (lookup id q.streams) unknown_stream
  require (not s.stopped) slow_consumer
  ok (head? s.messages)

unfoldable pub close_stream : Text → DeliveryQueue → Outcome (Unit {0}) × DeliveryQueue
unfolding release lookup
close_stream id q = commit q (do
  s ← or_throw (lookup id q.streams) unknown_stream
  let released = release id s q
  ok (tt, record released { streams = delete id released.streams }))

unfoldable pub clear : DeliveryQueue → DeliveryQueue
clear q = record q { streams = []; bytes = 0 }

pub record QueueStats : Type 0 where
  pub bytes : ℕ
  pub streams : ℕ
  pub dropped : ℕ

unfoldable pub stats : DeliveryQueue → QueueStats
stats q = record { bytes = q.bytes; streams = length q.streams; dropped = q.dropped }
