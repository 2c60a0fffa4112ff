-- ===== src/Runtime/Scan.antt =====
-- String methods of the language's runtime on lists of code units: `startsWith`, `slice`, `includes`,
-- `split`, `join`, `trim` and `toLowerCase`.
pub mod Pieces
use package.ros_webrtc_bridge.Prelude.{
  ℕ, zero, suc, ◌+◌, Bool, true, false, ◌&&◌, ◌||◌, Option, none, some, is_some, List, [], ◌∷◌,
  ◌++◌, leb, ◌==◌, if◌then◌else◌, length, Text,
}

-- What follows a prefix: `s.startsWith(p)` and `s.slice(p.length)`.
unfoldable pub after : Text → Text → Option Text
after [] s = some s
after (c ∷ p) [] = none
after (c ∷ p) (d ∷ s) = if c == d then after p s else none

abbrev pub starts_with : Text → Text → Bool
starts_with p s = is_some (after p s)

-- `s.includes(p)`
unfoldable pub contains : Text → Text → Bool
unfolding after
contains p [] = starts_with p []
contains p (c ∷ s) = starts_with p (c ∷ s) || contains p s

-- One code unit before the first piece.
abbrev pub prepend : ℕ → List Text → List Text
prepend c [] = (c ∷ []) ∷ []
prepend c (piece ∷ pieces) = (c ∷ piece) ∷ pieces

-- `s.split(separator)` for the separator `first ∷ more`; `skip` of its code units are still to be left
-- out.
unfoldable pub pieces : ℕ → Text → ℕ → Text → List Text
pieces first more skip [] = [] ∷ []
pieces first more (suc skip) (c ∷ s) = pieces first more skip s
pieces first more zero (c ∷ s) = elim (starts_with (first ∷ more) (c ∷ s)) [
  | true ↦ [] ∷ pieces first more (length more) s
  | false ↦ prepend c (pieces first more zero s)
]

-- The white space of `\s` and `trim`.
abbrev pub is_space : ℕ → Bool
is_space c =
    leb 9 c && leb c 13
    || c == 32
    || c == 0xa0
    || c == 0x1680
    || leb 0x2000 c && leb c 0x200a
    || c == 0x2028
    || c == 0x2029
    || c == 0x202f
    || c == 0x205f
    || c == 0x3000
    || c == 0xfeff

unfoldable pub trim_start : Text → Text
trim_start [] = []
trim_start (c ∷ s) = elim (is_space c) [ true ↦ trim_start s | false ↦ c ∷ s ]

-- A text without the white space at its end.
unfoldable pub trim_end : Text → Text
trim_end [] = []
trim_end (c ∷ s) = elim (trim_end s) [
  | [] ↦ if is_space c then [] else c ∷ []
  | d ∷ kept ↦ c ∷ d ∷ kept
]

-- `s.trim()`
unfoldable pub trim : Text → Text
unfolding trim_start trim_end
trim s = trim_end (trim_start s)

-- `s.toLowerCase()` on ASCII text.
unfoldable pub to_lower : Text → Text
to_lower [] = []
to_lower (c ∷ s) = (if leb b'A' c && leb c b'Z' then c + 32 else c) ∷ to_lower s
