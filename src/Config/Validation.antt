-- ===== src/Config/Validation.antt =====
-- packages/bridge/src/config/validation.ts: the validators of configuration values. A ConfigError is its
-- reason: the place in the document that it also tells is not modelled.
use package.ros_webrtc_bridge.Prelude.{
  ℕ, Bool, true, ◌&&◌, ◌==◌, Option, none, some, List, leb, ltb, length, Text, same_text,
  if◌then◌else◌,
}
use package.ros_webrtc_bridge.Runtime.Outcome.{
  Outcome, ok, throw, require, or_throw, ◌>>=◌, ◌>>◌, max_safe_integer, object_required,
  unknown_config_field, invalid_string, positive_required, safe_integer_required, unsupported_value,
  boolean_required, topic_too_long,
}
use package.ros_webrtc_bridge.Config.{Rate}
use package.ros_webrtc_bridge.Prelude.Dict.{lookup}
use package.ros_webrtc_bridge.Session.Guard.Topic.{is_topic}
use package.ros_webrtc_bridge.Router.Protocol.{includes}

-- A number: a quotient in lowest terms, or one that is negative or not finite.
pub data Number : Type 0 where
  quotient : Rate → Number
  not_counted : Number

-- A value of the document, as it is read: the elements of a sequence are never looked at.
mutual
  pub data Yaml : Type 0 where
    null sequence : Yaml
    boolean : Bool → Yaml
    string : Text → Yaml
    number : Number → Yaml
    map : Members → Yaml

  pub data Members : Type 0 where
    empty : Members
    member : Text → Yaml → Members → Members

abbrev pub get : Text → Members → Option Yaml
get key empty = none
get key (member k v rest) = if same_text k key then some v else get key rest

abbrev pub keys_in : List Text → Members → Bool
keys_in keys empty = true
keys_in keys (member k v rest) = includes keys k && keys_in keys rest

-- `record`; a key that is absent is `undefined`.
unfoldable pub read_record : List Text → Option Yaml → Outcome Members
read_record keys (some (map members)) =
    require (keys_in keys members) unknown_config_field >> ok members
read_record keys _ = throw object_required

unfoldable pub read_string : (Text → Bool) → Option Yaml → Outcome Text
read_string pattern (some (string t)) = require (pattern t) invalid_string >> ok t
read_string pattern _ = throw invalid_string

-- `positive` of any finite number.
unfoldable pub read_positive : Option Yaml → Outcome Rate
read_positive (some (number (quotient q))) = require (ltb 0 q.numerator) positive_required >> ok q
read_positive _ = throw positive_required

abbrev pub safe_integer : Rate → Outcome ℕ
safe_integer q =
    require (q.denominator == 1 && leb q.numerator max_safe_integer) safe_integer_required
    >> ok q.numerator

-- `positive` of integers.
unfoldable pub read_integer : Option Yaml → Outcome ℕ
unfolding read_positive
read_integer v = read_positive v >>= safe_integer

-- `choice`: the strings are listed beside the values that they stand for.
unfoldable pub choice {ℓ} : {A : Type ℓ} → List (Text × A) → Option Yaml → Outcome A
unfolding lookup
choice values (some (string t)) = or_throw (lookup t values) unsupported_value
choice values _ = throw unsupported_value

unfoldable pub read_boolean : Option Yaml → Outcome Bool
read_boolean (some (boolean b)) = ok b
read_boolean _ = throw boolean_required

-- `topicName`
unfoldable pub topic_name : Option Yaml → Outcome Text
unfolding read_string is_topic
topic_name v = do
  name ← read_string is_topic v
  require (leb (length name) 247) topic_too_long
  ok name
