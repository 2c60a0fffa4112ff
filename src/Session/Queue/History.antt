-- ===== src/Session/Queue/History.antt =====
-- delivery-queue.ts over histories of calls: what a stream accepts and delivers.
use package.ros_webrtc_bridge.Prelude.{
  ℕ, ◌≡◌, ◌≢◌, Bool, true, false, not, Option, none, some, List, [], ◌∷◌, ◌++◌, ite, Text,
  text_discrete,
}
use package.ros_webrtc_bridge.Prelude.Dict.{lookup}
use package.ros_webrtc_bridge.Runtime.Outcome.{Outcome, ok}
use package.ros_webrtc_bridge.Session.Queue.{
  Bytes, latest, reliable, Stream, QueueOptions, DeliveryQueue, init, register, enqueue, dequeue,
  close_stream, clear,
}
use package.ros_webrtc_bridge.Session.Queue.Accounting.{IsValid, init-IsValid, register-IsValid}
use package.ros_webrtc_bridge.Session.Queue.Traffic.{
  enqueue-IsValid, dequeue-IsValid, close_stream-IsValid, clear-IsValid,
}

pub data Call : Type 0 where
  registers : Text → Text → ℕ → Call
  enqueues : Text → Bytes → Call
  dequeues closes : Text → Call
  clears : Call

-- A caller that catches what a call throws goes on with the queue that the call left.
unfoldable pub step : Call → DeliveryQueue → DeliveryQueue
step (registers id policy max) q = (register id policy max q).1
step (enqueues id m) q = (enqueue id m q).1
step (dequeues id) q = (dequeue id q).1
step (closes id) q = (close_stream id q).1
step clears q = clear q

unfoldable pub run : List Call → DeliveryQueue → DeliveryQueue
run [] q = q
run (c ∷ cs) q = run cs (step c q)

step-IsValid : (c : Call) (q : DeliveryQueue) → IsValid q → IsValid (step c q)
unfolding step
step-IsValid (registers id policy max) q v = register-IsValid id policy max q v
step-IsValid (enqueues id m) q v = enqueue-IsValid q id m v
step-IsValid (dequeues id) q v = dequeue-IsValid q id v
step-IsValid (closes id) q v = close_stream-IsValid q id v
step-IsValid clears q v = clear-IsValid q v

run-IsValid : (cs : List Call) (q : DeliveryQueue) → IsValid q → IsValid (run cs q)
unfolding run
run-IsValid [] q v = v
run-IsValid (c ∷ cs) q v = run-IsValid cs (step c q) (step-IsValid c q v)

-- After any history of calls on a new queue, throws included, the byte count is the sum of the
-- payloads held and within the budget, no stream exceeds its message limit or holds a message of a
-- wrong size, and there are at most `maxStreams` streams under distinct identifiers.
pub run-init-IsValid :
    (o : QueueOptions) (cs : List Call) (q : DeliveryQueue) → init o ≡ ok q → IsValid (run cs q)
run-init-IsValid o cs q e = run-IsValid cs q (init-IsValid o q e).0

-- What a stream holds, and its state, by its identifier.
abbrev pub messages_of : Option Stream → List Bytes
messages_of none = []
messages_of (some s) = s.messages

abbrev pub runs : Option Stream → Bool
runs none = false
runs (some s) = not s.stopped

abbrev pub reliably : Option Stream → Bool
reliably none = false
reliably (some s) = elim s.policy [ latest ↦ false | reliable ↦ true ]

unfoldable pub pending : Text → DeliveryQueue → List Bytes
unfolding lookup
pending id q = messages_of (lookup id q.streams)

unfoldable pub is_running : Text → DeliveryQueue → Bool
unfolding lookup
is_running id q = runs (lookup id q.streams)

unfoldable pub is_reliable : Text → DeliveryQueue → Bool
unfolding lookup
is_reliable id q = reliably (lookup id q.streams)

abbrev when_stored : Bytes → Outcome Bool → List Bytes
when_stored m (ok true) = m ∷ []
when_stored m _ = []

abbrev when_taken : Outcome (Option Bytes) → List Bytes
when_taken (ok (some m)) = m ∷ []
when_taken _ = []

-- The message that a call stores in the stream, or takes from it, by the outcome of the call.
abbrev pub accepted_by : Text → Call → DeliveryQueue → List Bytes
accepted_by id (enqueues j m) q = ite (text_discrete j id) (when_stored m (enqueue j m q).0) []
accepted_by id _ q = []

abbrev pub delivered_by : Text → Call → DeliveryQueue → List Bytes
delivered_by id (dequeues j) q = ite (text_discrete j id) (when_taken (dequeue j q).0) []
delivered_by id _ q = []

unfoldable pub accepted : Text → List Call → DeliveryQueue → List Bytes
accepted id [] q = []
accepted id (c ∷ cs) q = accepted_by id c q ++ accepted id cs (step c q)

unfoldable pub delivered : Text → List Call → DeliveryQueue → List Bytes
delivered id [] q = []
delivered id (c ∷ cs) q = delivered_by id c q ++ delivered id cs (step c q)

-- The call does not end the stream.
abbrev pub Spares : Text → Call → Type 0
Spares id (closes j) = j ≢ id
Spares id clears = ⊥
Spares id _ = Unit
