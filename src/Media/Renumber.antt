-- ===== src/Media/Renumber.antt =====
-- packages/bridge/src/media/source.ts: the numbering of a track's RTP packets across its encoders.
--
-- `sequence` is a count that the code masks to 16 bits; `>>> 0` is the remainder modulo 2^32. A frame
-- rate is a natural number, as the configuration asks for.
pub mod Continuity
mod Tests
use package.ros_webrtc_bridge.Prelude.{
  ℕ, ◌+◌, ◌-◌, ◌*◌, ◌/◌, ◌%◌, ◌^◌, Option, none, some, List, [], ◌∷◌, ◌++◌,
}

-- The two fields of a packet's header that are rewritten, and the other bytes.
pub record Packet : Type 0 where
  pub sequence : ℕ
  pub timestamp : ℕ
  pub rest : List ℕ

pub record Numbering : Type 0 where
  pub sequence : ℕ
  pub emitted : ℕ
  pub origin : Option ℕ
  pub shift : ℕ

unfoldable pub init : Numbering
init = record { sequence = 0; emitted = 0; origin = none; shift = 0 }

-- `Math.round(CLOCK_HZ / framerate)`
unfoldable pub frame_step : ℕ → ℕ
frame_step framerate = (2 * 90000 + framerate) / (2 * framerate)

-- The first packet of an encoder fixes the shift.
unfoldable pub anchor : ℕ → ℕ → Numbering → Numbering
unfolding frame_step
anchor framerate original n = elim n.origin [
  | some _ ↦ n
  | none ↦ record n {
    origin = some original;
    shift = (n.emitted + frame_step framerate + (2 ^ 32 - original)) % 2 ^ 32;
  }
]

unfoldable pub renumber : ℕ → Packet → Numbering → Packet × Numbering
unfolding anchor
renumber framerate packet n =
    let anchored : Numbering = anchor framerate packet.timestamp n in
    let emitted : ℕ = (packet.timestamp + anchored.shift) % 2 ^ 32 in
    (
      record packet { timestamp = emitted; sequence = anchored.sequence % 2 ^ 16 },
      record anchored { emitted = emitted; sequence = anchored.sequence + 1 },
    )

-- What `begin` does to the numbering.
unfoldable pub restart : Numbering → Numbering
restart n = record n { origin = none }

-- The packets of one encoder, as `deliver` takes them.
unfoldable pub renumber_all : ℕ → List Packet → Numbering → List Packet × Numbering
renumber_all framerate [] n = ([], n)
renumber_all framerate (p ∷ ps) n =
    let (q, m) = renumber framerate p n in
    let (qs, m') = renumber_all framerate ps m in (q ∷ qs, m')

-- The packets of several encoders, one after the other.
unfoldable pub encoders : ℕ → List (List Packet) → Numbering → List Packet × Numbering
encoders framerate [] n = ([], n)
encoders framerate (ps ∷ more) n =
    let (qs, m) = renumber_all framerate ps (restart n) in
    let (rs, m') = encoders framerate more m in (qs ++ rs, m')
