-- ===== src/Media/Renumber/Continuity.antt =====
-- source.ts: the numbers that the viewers of a track see.
use package.ros_webrtc_bridge.Prelude.{
  ℕ, zero, suc, ◌+◌, ◌%◌, ◌^◌, ◌<◌, ◌≡◌, refl, sym, ap, ◌∙◌, List, [], ◌∷◌, ◌++◌, length, sum_of,
  arith,
}
use package.ros_webrtc_bridge.Media.Renumber.{
  Packet, Numbering, frame_step, anchor, renumber, restart, renumber_all, encoders,
}

-- `n`, `n + 1`, ... modulo 2^16, as many as the length says.
abbrev pub counting : ℕ → ℕ → List ℕ
counting n zero = []
counting n (suc k) = n % 2 ^ 16 ∷ counting (n + 1) k

counting-add : (n a b : ℕ) → counting n (a + b) ≡ counting n a ++ counting (n + a) b
counting-add n zero b =
    let left : 0 + b ≡ b = omega arith in
    let right : n + 0 ≡ n = omega arith in rw (left, right) (refl)
counting-add n (suc a) b =
    let left : suc a + b ≡ suc (a + b) = omega arith in
    let right : n + suc a ≡ n + 1 + a = omega arith in
    rw (left, right) (ap (λ ns. n % 2 ^ 16 ∷ ns) (counting-add (n + 1) a b))

abbrev pub sequences : List Packet → List ℕ
sequences [] = []
sequences (p ∷ ps) = p.sequence ∷ sequences ps

sequences-append : (ps qs : List Packet) → sequences (ps ++ qs) ≡ sequences ps ++ sequences qs
sequences-append [] qs = refl
sequences-append (p ∷ ps) qs = ap (λ ns. p.sequence ∷ ns) (sequences-append ps qs)

anchor-sequence :
    (framerate original : ℕ) (n : Numbering) → (anchor framerate original n).sequence ≡ n.sequence
unfolding anchor
anchor-sequence framerate original n = ground arith

renumber_all-sequence :
    (framerate : ℕ) (ps : List Packet) (n : Numbering)
    → (sequences (renumber_all framerate ps n).0 ≡ counting n.sequence (length ps))
      × ((renumber_all framerate ps n).1.sequence ≡ n.sequence + length ps)
unfolding renumber_all renumber
renumber_all-sequence framerate [] n = (refl, omega arith)
renumber_all-sequence framerate (p ∷ ps) n =
    let same = anchor-sequence framerate p.timestamp n in
    let rest = renumber_all-sequence framerate ps (renumber framerate p n).1 in
    (
      ap (λ ns. (anchor framerate p.timestamp n).sequence % 2 ^ 16 ∷ ns) rest.0
          ∙ ap (λ m. m % 2 ^ 16 ∷ counting (m + 1) (length ps)) same,
      omega (arith, rest.1, same),
    )

-- However often the encoder restarts, the packets of a track are numbered one after the other, modulo
-- 2^16, from the count at which the track stands.
pub encoders-sequence :
    (framerate : ℕ) (pss : List (List Packet)) (n : Numbering)
    → sequences (encoders framerate pss n).0 ≡ counting n.sequence (sum_of length pss)
unfolding encoders restart
encoders-sequence framerate [] n = refl
encoders-sequence framerate (ps ∷ pss) n =
    let first = renumber_all-sequence framerate ps (restart n) in
    let m : Numbering = (renumber_all framerate ps (restart n)).1 in
    let rest = encoders-sequence framerate pss m in
    sequences-append (renumber_all framerate ps (restart n)).0 (encoders framerate pss m).0
    ∙ ap (λ ns. ns ++ sequences (encoders framerate pss m).0) first.0
    ∙ ap (λ ns. counting n.sequence (length ps) ++ ns)
        (rest ∙ ap (λ k. counting k (sum_of length pss)) first.1)
    ∙ sym (counting-add n.sequence (length ps) (sum_of length pss))

abbrev pub timestamps : List Packet → List ℕ
timestamps [] = []
timestamps (p ∷ ps) = p.timestamp ∷ timestamps ps

-- If the timestamp of the first packet of a new encoder is a 32-bit number, the packet goes out one frame
-- after the packet that went out before the restart, and under the next sequence number, modulo 2^32 and
-- 2^16.
pub renumber-restart :
    (framerate : ℕ) (p q : Packet) (n : Numbering)
    → q.timestamp < 2 ^ 32
    → let (p', m) = renumber framerate p n in
      let q' = (renumber framerate q (restart m)).0 in
      (q'.timestamp ≡ (p'.timestamp + frame_step framerate) % 2 ^ 32)
      × (q'.sequence ≡ (p'.sequence + 1) % 2 ^ 16)
unfolding renumber restart anchor
renumber-restart framerate p q n h = (omega arith, omega arith)
