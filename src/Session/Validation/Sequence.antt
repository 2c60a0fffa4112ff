-- ===== src/Session/Validation/Sequence.antt =====
-- `sequence` reads exactly the texts that `String` writes for a uint64.
use package.ros_webrtc_bridge.Prelude.{
  ℕ, zero, suc, ◌+◌, ◌-◌, ◌*◌, ◌/◌, ◌%◌, ◌^◌, ◌≤◌, ◌<◌, ◌≡◌, sym, ap, ◌∙◌, Bool, true, false, ◌&&◌,
  [], ◌∷◌, ◌++◌, leb, ltb, length, length-append, all, all-append, Text, inl, inr, Bool-cases,
  arith, ◌↔◌,
}
use mathlib.Core.List.{append_assoc, append-nil}
use native.Mathlib.Nat.{pow-suc}
use package.ros_webrtc_bridge.Runtime.Outcome.{ok}
use package.ros_webrtc_bridge.Runtime.Decimal.{
  is_digit, parse, parse_from, print, print_small, print_large, print_ind, parse-print,
}
use package.ros_webrtc_bridge.Session.Validation.{is_sequence, sequence}

abbrev leads : Text → Bool
leads [] = false
leads (c ∷ cs) = leb b'1' c && leb c b'9'

leads-append : (xs ys : Text) → leads xs ≡ true → leads (xs ++ ys) ≡ true
leads-append [] ys h = absurd (ground arith)
leads-append (x ∷ xs) ys h = h

leads-print : (n : ℕ) → 0 < n → leads (print n) ≡ true
leads-print n =
    print_ind (λ k. 0 < k → leads (print k) ≡ true) (λ k h pos. rw (print_small k h) (ground arith))
      (λ k h ih pos. rw (print_large k h) (leads-append (print (k / 10)) _ (ih (omega arith))))
      (suc n) n (omega arith)

digits-print : (n : ℕ) → all is_digit (print n) ≡ true
digits-print n =
    print_ind (λ k. all is_digit (print k) ≡ true) (λ k h. rw (print_small k h) (ground arith))
      (λ k h ih. rw (print_large k h, all-append is_digit (print (k / 10)), ih) (ground arith))
      (suc n) n (omega arith)

length-print-le : (k n : ℕ) → n < 10 ^ suc k → length (print n) ≤ suc k
length-print-le zero n h = rw (print_small n h) (omega arith)
length-print-le (suc k) n h = elim (Bool-cases (ltb n 10)) [
  | inl small ↦ rw (print_small n (ground arith)) (omega arith)
  | inr large ↦
      rw (print_large n (ground arith), length-append (print (n / 10)))
        (omega (arith, length-print-le k (n / 10) (omega (arith, pow-suc 10 (suc k)))))
]

is_sequence_of_leads :
    (t : Text) → leads t ≡ true → all is_digit t ≡ true → length t ≤ 20 → is_sequence t ≡ true
unfolding is_sequence
is_sequence_of_leads [] l d h = l
is_sequence_of_leads (c ∷ cs) l d h = ground arith

is_sequence-print : (n : ℕ) → n < 10 ^ 20 → is_sequence (print n) ≡ true
unfolding is_sequence
is_sequence-print zero h = rw (print_small 0 (omega arith))
is_sequence-print (suc n) h =
    is_sequence_of_leads _ (leads-print (suc n) (omega arith)) (digits-print (suc n))
      (length-print-le 19 (suc n) h)

-- For each number below 2^64, `sequence` accepts the text that `String` writes and returns the number.
pub sequence-print : (n : ℕ) → n < 2 ^ 64 → sequence (print n) ≡ ok n
unfolding sequence
sequence-print n h = rw (is_sequence-print n (omega arith)) (rw (parse-print n) (ground arith))

print-snoc : (n c : ℕ) → 0 < n → is_digit c ≡ true → print (n * 10 + (c - 48)) ≡ print n ++ c ∷ []
print-snoc n c pos h =
    let low : (n * 10 + (c - 48)) % 10 ≡ c - 48 = ground arith in
    let high : (n * 10 + (c - 48)) / 10 ≡ n = ground arith in
    let back : 48 + (c - 48) ≡ c = ground arith in
    rw (print_large (n * 10 + (c - 48)) (omega arith), low, high, back)

print-parse_from :
    (acc : ℕ) (cs : Text)
    → 0 < acc
    → all is_digit cs ≡ true
    → print (parse_from acc cs) ≡ print acc ++ cs
unfolding parse_from
print-parse_from acc [] pos h = sym (append-nil (print acc))
print-parse_from acc (c ∷ cs) pos h =
    print-parse_from (acc * 10 + (c - 48)) cs (omega arith) (ground arith)
    ∙ ap (λ t. t ++ cs) (print-snoc acc c pos (ground arith))
    ∙ append_assoc (print acc) (c ∷ []) cs

print-parse : (t : Text) → is_sequence t ≡ true → print (parse t) ≡ t
unfolding is_sequence parse_from
print-parse [] h = absurd (ground arith)
print-parse (c ∷ []) h = rw (print_small (0 + (c - 48)) (ground arith)) (ground arith)
print-parse (c ∷ d ∷ cs) h =
    let back : 48 + (0 + (c - 48)) ≡ c = ground arith in
    print-parse_from (0 + (c - 48)) (d ∷ cs) (ground arith) (ground arith)
    ∙ ap (λ t. t ++ d ∷ cs) (print_small (0 + (c - 48)) (ground arith))
    ∙ ap (λ x. x ∷ d ∷ cs) back

-- `sequence` accepts a text exactly if it is what `String` writes for a number below 2^64, and then
-- returns that number.
pub sequence-eq-ok_iff : (t : Text) (n : ℕ) → (sequence t ≡ ok n) ↔ ((n < 2 ^ 64) × (print n ≡ t))
unfolding sequence
sequence-eq-ok_iff t n =
    (λ e. (ground arith, ground (arith, print-parse t)), λ h. rw (sym h.1) (sequence-print n h.0))
