-- ===== src/Runtime/Decimal.antt =====
-- `String(n)` and `BigInt(text)` on natural numbers.
use package.ros_webrtc_bridge.Prelude.{
  ℕ, zero, suc, ◌+◌, ◌-◌, ◌*◌, ◌/◌, ◌%◌, ◌≤◌, ◌<◌, ◌≡◌, refl, sym, ap, ◌∙◌, Bool, ◌&&◌, [], ◌∷◌,
  ◌++◌, ltb, leb, if◌then◌else◌, Bool-cases, inl, inr, Text, arith,
}

abbrev pub is_digit : ℕ → Bool
is_digit c = leb b'0' c && leb c b'9'

-- The digits of `n`, with fuel: `suc n` is enough, as `digits_fuel_irrelevant` shows.
digits : ℕ → ℕ → Text
digits zero n = []
digits (suc f) n =
    let rest = digits f (n / 10) in if ltb n 10 then (48 + n) ∷ [] else rest ++ (48 + n % 10) ∷ []

-- `String(n)`
unfoldable pub print : ℕ → Text
unfolding digits
print n = digits (suc n) n

unfoldable pub parse_from : ℕ → Text → ℕ
parse_from acc [] = acc
parse_from acc (c ∷ cs) = parse_from (acc * 10 + (c - 48)) cs

-- `BigInt(text)` on a text of digits.
abbrev pub parse : Text → ℕ
parse = parse_from 0

digits_more : (f g n : ℕ) → n < f → n < g → digits f n ≡ digits g n
unfolding digits
digits_more zero g n h k = absurd (omega arith)
digits_more (suc f) zero n h k = absurd (omega arith)
digits_more (suc f) (suc g) n h k = elim (Bool-cases (ltb n 10)) [
  | inl small ↦ rw small
  | inr large ↦ rw (large, digits_more f g (n / 10) (ground arith) (ground arith))
]

-- The equation of `print`.
pub print_small : (n : ℕ) → n < 10 → print n ≡ (48 + n) ∷ []
unfolding print
print_small n h = ground arith

pub print_large : (n : ℕ) → 10 ≤ n → print n ≡ print (n / 10) ++ (48 + n % 10) ∷ []
unfolding print
print_large n h = elim (Bool-cases (ltb n 10)) [
  | inl small ↦ absurd (ground arith)
  | inr large ↦ rw (large, digits_more n (suc (n / 10)) (n / 10) (omega arith) (omega arith))
]

parse_from-append :
    (acc : ℕ) (xs : Text) (c : ℕ)
    → parse_from acc (xs ++ c ∷ []) ≡ parse_from acc xs * 10 + (c - 48)
unfolding parse_from
parse_from-append acc [] c = refl
parse_from-append acc (x ∷ xs) c = parse_from-append (acc * 10 + (x - 48)) xs c

-- Strong induction over the digits: below ten, or one digit after the print of a smaller number.
pub print_ind {ℓ} :
    (P : ℕ → Type ℓ)
    → ((n : ℕ) → n < 10 → P n)
    → ((n : ℕ) → 10 ≤ n → P (n / 10) → P n)
    → (fuel n : ℕ) → n < fuel
    → P n
print_ind P small large zero n h = absurd (omega arith)
print_ind P small large (suc fuel) n h = elim (Bool-cases (ltb n 10)) [
  | inl lt ↦ small n (ground arith)
  | inr ge ↦ large n (ground arith) (print_ind P small large fuel (n / 10) (ground arith))
]

pub parse-print : (n : ℕ) → parse (print n) ≡ n
parse-print n =
    print_ind (λ k. parse (print k) ≡ k)
      (λ k h. rw (print_small k h) (unfold parse_from in omega arith))
      (λ k h ih.
        rw (print_large k h, parse_from-append 0 (print (k / 10)) (48 + k % 10), ih) (omega arith))
      (suc n) n (omega arith)

pub print_injective : (m n : ℕ) → print m ≡ print n → m ≡ n
print_injective m n e = sym (parse-print m) ∙ ap parse e ∙ parse-print n
