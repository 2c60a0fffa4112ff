-- ===== src/Session/Queue/Tests.antt =====
-- delivery-queue.ts and validation.ts at concrete inputs, and the theorems applied.
use package.ros_webrtc_bridge.Prelude.{
  ◌^◌, ◌<◌, ◌≤◌, ◌≡◌, ◌↔◌, ◌⊎◌, refl, true, false, some, List, [], ◌∷◌, ◌++◌, length, ◌+◌, codes,
  text_discrete,
}
use package.ros_webrtc_bridge.Prelude.Dict.{lookup, put, delete}
use package.ros_webrtc_bridge.Runtime.Outcome.{ok, throw, Error}
use package.ros_webrtc_bridge.Runtime.Decimal.{print, parse_from}
use package.ros_webrtc_bridge.Session.Validation.{sequence}
use package.ros_webrtc_bridge.Session.Validation.Sequence.{sequence-eq-ok_iff}
use package.ros_webrtc_bridge.Session.Queue.{
  Bytes, Policy, QueueOptions, Stream, stream_bytes, DeliveryQueue, init, register, enqueue,
  dequeue, peek, close_stream, clear,
}
use package.ros_webrtc_bridge.Session.Queue.Accounting.{IsValid}
use package.ros_webrtc_bridge.Session.Queue.History.{
  Call, step, run, run-init-IsValid, pending, is_running, is_reliable, accepted, delivered,
}
use package.ros_webrtc_bridge.Session.Queue.Fifo.{delivered-prefix}
use package.ros_webrtc_bridge.Session.Queue.Latest.{enqueue_latest}

program : Unit {0}
unfolding init register enqueue dequeue peek close_stream clear lookup put delete step run pending
    is_running is_reliable accepted delivered text_discrete sequence print parse_from
program = tt

abbrev options : QueueOptions
options = record { max_streams = 4; max_bytes = 32; max_message_bytes = 8 }

abbrev empty : DeliveryQueue
empty = record { options = options; streams = []; bytes = 0; dropped = 0 }

starts_empty : init options ≡ ok empty
unfolding program
starts_empty = refl

abbrev registrations : List Call
registrations =
    Call.registers (codes "odom") (codes "latest") 1
    ∷ Call.registers (codes "scan") (codes "reliable") 2
    ∷ Call.enqueues (codes "scan") (1 ∷ 2 ∷ [])
    ∷ Call.enqueues (codes "odom") (9 ∷ [])
    ∷ []

abbrev filled : DeliveryQueue
filled = run registrations empty

-- A third message does not fit a stream of two: the stream stops, and its bytes are given back.
abbrev overflowing : List Call
overflowing =
    Call.enqueues (codes "scan") (3 ∷ [])
    ∷ Call.dequeues (codes "scan")
    ∷ Call.enqueues (codes "scan") (4 ∷ [])
    ∷ Call.enqueues (codes "scan") (5 ∷ [])
    ∷ []

overflow_stops :
    (is_running (codes "scan") (run overflowing filled) ≡ false)
    × (delivered (codes "scan") overflowing filled ≡ (1 ∷ 2 ∷ []) ∷ [])
    × (accepted (codes "scan") overflowing filled ≡ (3 ∷ []) ∷ (4 ∷ []) ∷ [])
    × ((run overflowing filled).bytes ≡ 1)
unfolding program
overflow_stops = (refl, refl, refl, refl)

run-init-IsValid_example : IsValid (run registrations empty)
run-init-IsValid_example = run-init-IsValid options registrations empty starts_empty

scan_reliable : is_reliable (codes "scan") filled ≡ true
unfolding program
scan_reliable = refl

delivered-prefix_example :
    (rest : List Bytes) × (pending (codes "scan") filled
        ++ accepted (codes "scan") overflowing filled
      ≡ delivered (codes "scan") overflowing filled ++ rest)
    × ((is_running (codes "scan") (run overflowing filled) ≡ false)
        ⊎ (rest ≡ pending (codes "scan") (run overflowing filled)))
delivered-prefix_example =
    delivered-prefix (codes "scan") overflowing filled scan_reliable (tt, (tt, (tt, (tt, tt))))

abbrev odom : Stream
odom = record {
  policy = Policy.latest;
  max_messages = 1;
  messages = (9 ∷ []) ∷ [];
  stopped = false;
}

odom_found : lookup (codes "odom") filled.streams ≡ some odom
unfolding program
odom_found = refl

abbrev newest : Bytes
newest = 8 ∷ []

enqueue_latest_example :
    let r = enqueue (codes "odom") newest filled in
    ((length newest ≡ 0) ⊎ (filled.max_message_bytes < length newest))
      × (r ≡ (throw Error.message_size, filled))
    ⊎ (0 < length newest)
      × (length newest ≤ filled.max_message_bytes)
      × ((filled.bytes + length newest ≤ filled.max_bytes + stream_bytes odom)
            × (r.0 ≡ ok true)
            × (pending (codes "odom") r.1 ≡ newest ∷ [])
          ⊎ (filled.max_bytes + stream_bytes odom < filled.bytes + length newest)
            × (r.0 ≡ ok false)
            × (pending (codes "odom") r.1 ≡ []))
      × (length (pending (codes "odom") r.1) + r.1.dropped
          ≡ length odom.messages + filled.dropped + 1)
enqueue_latest_example =
    enqueue_latest filled (codes "odom") odom newest run-init-IsValid_example odom_found refl

enqueue_newest : (enqueue (codes "odom") (8 ∷ []) filled).0 ≡ ok true
unfolding program
enqueue_newest = refl

sequence-eq-ok_iff_example :
    (sequence (codes "042") ≡ ok 42) ↔ ((42 < 2 ^ 64) × (print 42 ≡ codes "042"))
sequence-eq-ok_iff_example = sequence-eq-ok_iff (codes "042") 42

sequence_bound : sequence (codes "18446744073709551616") ≡ throw Error.invalid_sequence
unfolding program
sequence_bound = refl
