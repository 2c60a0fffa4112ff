-- ===== src/Session/Validation.antt =====
-- packages/bridge/src/session/validation.ts. A limit is a natural number here: the refusal of
-- negative and fractional numbers has no counterpart.
pub mod Sequence
use package.ros_webrtc_bridge.Prelude.{
  ℕ, ◌+◌, ◌-◌, ◌*◌, ◌^◌, ◌≤◌, ◌<◌, ◌≡◌, Bool, true, false, ◌&&◌, [], ◌∷◌, ltb, leb, ◌==◌,
  if◌then◌else◌, length, all, Text, arith,
}
use package.ros_webrtc_bridge.Runtime.Outcome.{
  Outcome, ok, throw, require, ◌>>=◌, ◌>>◌, max_safe_integer, invalid_limit, invalid_identifier,
  invalid_sequence,
}
use package.ros_webrtc_bridge.Runtime.Decimal.{is_digit, parse, print}

unfoldable pub positive_limit : ℕ → Outcome (Unit {0})
positive_limit value = require (leb value max_safe_integer && ltb 0 value) invalid_limit

-- `/^[\x21-\x7e]{1,256}$/`
unfoldable pub is_identifier : Text → Bool
is_identifier t = leb 1 (length t) && leb (length t) 256 && all (λ c. leb 0x21 c && leb c 0x7e) t

unfoldable pub identifier : Text → Outcome (Unit {0})
unfolding is_identifier
identifier value = require (is_identifier value) invalid_identifier

-- `/^(0|[1-9][0-9]{0,19})$/`
unfoldable pub is_sequence : Text → Bool
is_sequence [] = false
is_sequence (c ∷ cs) =
    if c == b'0'
    then length cs == 0
    else leb b'1' c && leb c b'9' && leb (length cs) 19 && all is_digit cs

unfoldable pub sequence : Text → Outcome ℕ
unfolding is_sequence
sequence value = do
  require (is_sequence value) invalid_sequence
  let result = parse value
  require (leb result 18446744073709551615) invalid_sequence
  ok result
