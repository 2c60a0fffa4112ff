-- ===== src/Media/Renumber/Tests.antt =====
-- The numbering of source.ts at concrete inputs, and the theorems applied.
use package.ros_webrtc_bridge.Prelude.{ℕ, ◌+◌, ◌%◌, ◌^◌, ◌≡◌, refl, none, List, [], ◌∷◌, arith}
use package.ros_webrtc_bridge.Media.Renumber.{
  Packet, Numbering, init, frame_step, anchor, renumber, restart, renumber_all, encoders,
}
use package.ros_webrtc_bridge.Media.Renumber.Continuity.{sequences, timestamps, renumber-restart}

program : Unit {0}
unfolding init frame_step anchor renumber restart renumber_all encoders
program = tt

abbrev packet : ℕ → Packet
packet timestamp = record { sequence = 7; timestamp = timestamp; rest = [] }

-- A track whose count and whose timestamps are about to wrap.
abbrev late : Numbering
late = record { sequence = 65535; emitted = 4294966000; origin = none; shift = 0 }

-- Two encoders: the second starts below the first.
abbrev streams : List (List Packet)
streams = (packet 4294967290 ∷ packet 100 ∷ []) ∷ (packet 5 ∷ []) ∷ []

-- At 30 frames a second a frame is 3000 units of the clock.
encoders_wrap :
    (sequences (encoders 30 streams late).0 ≡ 65535 ∷ 0 ∷ 1 ∷ [])
    × (timestamps (encoders 30 streams late).0 ≡ 1704 ∷ 1810 ∷ 4810 ∷ [])
unfolding program
encoders_wrap = (refl, refl)

starts_at_zero : sequences (encoders 30 streams init).0 ≡ 0 ∷ 1 ∷ 2 ∷ []
unfolding program
starts_at_zero = refl

renumber-restart_example :
    let (p', m) = renumber 30 (packet 100) late in
    let q' = (renumber 30 (packet 5) (restart m)).0 in
    (q'.timestamp ≡ (p'.timestamp + frame_step 30) % 2 ^ 32)
    × (q'.sequence ≡ (p'.sequence + 1) % 2 ^ 16)
renumber-restart_example = renumber-restart 30 (packet 100) (packet 5) late (omega arith)
