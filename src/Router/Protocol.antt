-- ===== src/Router/Protocol.antt =====
-- packages/bridge/src/router/protocol.ts: the checks of an envelope and its fields.
use package.ros_webrtc_bridge.Prelude.{
  Bool, false, ◌||◌, Option, none, some, List, [], ◌∷◌, all, Text, same_text, codes,
}
use package.ros_webrtc_bridge.Prelude.Dict.{lookup, delete}
use package.ros_webrtc_bridge.Runtime.Outcome.{
  Outcome, throw, ok, require, ◌>>◌, ◌>>=◌, invalid_protocol, invalid_envelope, unknown_field,
  invalid_identifier,
}
use package.ros_webrtc_bridge.Session.Validation.{identifier}

-- A field's value: a string, or anything else, which stands as its JSON text.
pub data Value : Type 0 where
  text : Text → Value
  other : Text → Value

-- An envelope that `parseWire` has passed: `v` is 1, `op` is a string, and there may be more fields.
pub record Wire : Type 0 where
  pub op : Text
  pub rest : List (Text × Value)

-- A parsed JSON text, of which the code tells objects from the rest.
pub data Json : Type 0 where
  object : List (Text × Value) → Json
  not_object : Json

abbrev pub is_one : Option Value → Bool
is_one (some (other json)) = same_text json (codes "1")
is_one (some (text t)) = false
is_one none = false

abbrev pub string_of : Option Value → Outcome Text
string_of (some (text t)) = ok t
string_of (some (other json)) = throw invalid_protocol
string_of none = throw invalid_protocol

-- The end of `parseWire`.
unfoldable pub read_envelope : Json → Outcome Wire
unfolding lookup delete
read_envelope not_object = throw invalid_envelope
read_envelope (object members) = do
  require (is_one (lookup (codes "v") members)) invalid_protocol
  op ← string_of (lookup (codes "op") members)
  ok (record { op = op; rest = delete (codes "op") (delete (codes "v") members) })

abbrev pub includes : List Text → Text → Bool
includes [] key = false
includes (allowed ∷ more) key = same_text allowed key || includes more key

unfoldable pub fields : Wire → List Text → Outcome (Unit {0})
fields wire allowed =
    require (all (λ (field : Text × Value). includes allowed field.0) wire.rest) unknown_field

-- `identifier` throws on what is not a string.
abbrev pub checked : Option Value → Outcome Text
unfolding identifier
checked none = throw invalid_identifier
checked (some (other json)) = throw invalid_identifier
checked (some (text t)) = identifier t >> ok t

unfoldable pub text_field : Wire → Text → Outcome Text
unfolding lookup identifier
text_field wire key = checked (lookup key wire.rest)
