-- ===== src/Runtime/Scan/Pieces.antt =====
-- The laws of `startsWith` and `split`.
use package.ros_webrtc_bridge.Prelude.{
  ℕ, zero, suc, ◌≡◌, refl, ◌≢◌, true, some, List, [], ◌∷◌, ◌++◌, Bool-cases, inl, inr, length, Text,
  arith,
}
use package.ros_webrtc_bridge.Runtime.Scan.{after, starts_with, prepend, pieces}

-- `list.join(separator)`
unfoldable pub join : Text → List Text → Text
join separator [] = []
join separator (p ∷ []) = p
join separator (p ∷ q ∷ ps) = p ++ separator ++ join separator (q ∷ ps)

abbrev drop : ℕ → Text → Text
drop zero s = s
drop (suc n) [] = []
drop (suc n) (c ∷ s) = drop n s

pub after-eq-some : (p s rest : Text) → after p s ≡ some rest → s ≡ p ++ rest
unfolding after
after-eq-some [] s rest h = ground arith
after-eq-some (c ∷ p) [] rest h = ground arith
after-eq-some (c ∷ p) (d ∷ s) rest h = ground (arith, after-eq-some p s rest)

pub after-append : (p rest : Text) → after p (p ++ rest) ≡ some rest
unfolding after
after-append [] rest = refl
after-append (c ∷ p) rest = ground (arith, after-append p rest)

pub starts_with-append : (p rest : Text) → starts_with p (p ++ rest) ≡ true
starts_with-append p rest = rw (after-append p rest)

starts_with-drop : (p s : Text) → starts_with p s ≡ true → p ++ drop (length p) s ≡ s
unfolding after
starts_with-drop [] s h = refl
starts_with-drop (c ∷ p) [] h = ground arith
starts_with-drop (c ∷ p) (d ∷ s) h = ground (arith, starts_with-drop p s)

pieces-nonempty : (first : ℕ) (more : Text) (skip : ℕ) (s : Text) → pieces first more skip s ≢ []
unfolding pieces
pieces-nonempty first more skip [] e = absurd (cc (e))
pieces-nonempty first more (suc skip) (c ∷ s) e = pieces-nonempty first more skip s e
pieces-nonempty first more zero (c ∷ s) e = ground arith

join-prepend :
    (separator : Text) (c : ℕ) (ps : List Text)
    → ps ≢ []
    → join separator (prepend c ps) ≡ c ∷ join separator ps
unfolding join
join-prepend separator c [] h = absurd (h refl)
join-prepend separator c (p ∷ []) h = refl
join-prepend separator c (p ∷ q ∷ ps) h = refl

join-nil :
    (separator : Text) (ps : List Text)
    → ps ≢ []
    → join separator ([] ∷ ps) ≡ separator ++ join separator ps
unfolding join
join-nil separator [] h = absurd (h refl)
join-nil separator (p ∷ ps) h = refl

-- What is split is joined again.
pub join-pieces :
    (first : ℕ) (more : Text) (skip : ℕ) (s : Text)
    → join (first ∷ more) (pieces first more skip s) ≡ drop skip s
unfolding pieces
join-pieces first more zero [] = unfold join in refl
join-pieces first more (suc skip) [] = unfold join in refl
join-pieces first more (suc skip) (c ∷ s) = join-pieces first more skip s
join-pieces first more zero (c ∷ s) = elim (Bool-cases (starts_with (first ∷ more) (c ∷ s))) [
  | inl found ↦ grind (
    arith,
    found,
    join-nil (first ∷ more) (pieces first more (length more) s)
        (pieces-nonempty first more (length more) s),
    join-pieces first more (length more) s,
    starts_with-drop (first ∷ more) (c ∷ s) found,
  )
  | inr other ↦ grind (
    arith,
    other,
    join-prepend (first ∷ more) c (pieces first more zero s) (pieces-nonempty first more zero s),
    join-pieces first more zero s,
  )
]
