-- ===== src/Config/Bridge.antt =====
-- packages/bridge/src/config/index.ts: parseBridgeConfig, and readDocument of config/validation.ts. The
-- YAML library and the length of a text in UTF-8 are parameters.
use package.ros_webrtc_bridge.Prelude.{
  ◌+◌, ℕ, Bool, false, not, ◌&&◌, ◌||◌, ◌==◌, Option, none, some, List, [], ◌∷◌, leb, ltb, Text,
  codes, all, if◌then◌else◌,
}
use package.ros_webrtc_bridge.Runtime.Outcome.{
  Outcome, ok, throw, require, or_throw, ◌>>=◌, ◌>>◌, object_required, document_size, invalid_yaml,
  unsupported_version, topic_count, inconsistent_limits,
}
use package.ros_webrtc_bridge.Config.{TopicBinding}
use package.ros_webrtc_bridge.Config.Validation.{
  Yaml, Members, empty, member, Number, quotient, map, number, get, read_record, read_string,
  read_integer,
}
use package.ros_webrtc_bridge.Config.Binding.{ConfigOptions, binding}
use package.ros_webrtc_bridge.Config.Outputs.{check_outputs}
use package.ros_webrtc_bridge.Session.Guard.Topic.{is_alnum}

-- The YAML library: the value of a document without errors and warnings, and a length in bytes.
pub record YamlLibrary : Type 0 where
  pub byte_length : Text → ℕ
  pub parse_document : Text → Option Yaml

pub record BridgeLimits : Type 0 where
  pub max_peers : ℕ
  pub max_message_bytes : ℕ
  pub max_peer_queue_bytes : ℕ
  pub max_channel_buffered_bytes : ℕ

pub record BridgeConfig : Type 0 where
  pub robot_id : Text
  pub limits : BridgeLimits
  pub topics : List TopicBinding

unfoldable pub read_document : YamlLibrary → Text → ℕ → Outcome Yaml
read_document library source max_bytes =
    if ltb max_bytes (library.byte_length source)
    then throw document_size
    else or_throw (library.parse_document source) invalid_yaml

-- `record` of a map with any keys.
unfoldable pub read_map : Option Yaml → Outcome Members
read_map (some (map members)) = ok members
read_map _ = throw object_required

abbrev pub or_number : Option Number → ℕ → Option Yaml
or_number none n = some (number (quotient (record { numerator = n; denominator = 1 })))
or_number (some value) n = some (number value)

abbrev pub is_version : Option Yaml → Bool
is_version (some (number (quotient q))) = q.numerator == 1 && q.denominator == 1
is_version _ = false

-- `/^[A-Za-z0-9_-]+$/`
abbrev pub is_robot_id : Text → Bool
is_robot_id [] = false
is_robot_id (c ∷ cs) = all (λ d. is_alnum d || d == b'-') (c ∷ cs)

abbrev pub count : Members → ℕ
count empty = 0
count (member key value rest) = count rest + 1

abbrev pub fits : BridgeLimits → Bool
fits l =
    leb l.max_message_bytes 16384
    && leb l.max_message_bytes l.max_peer_queue_bytes
    && leb l.max_message_bytes l.max_channel_buffered_bytes

unfoldable pub parse_limits : Option Yaml → Outcome BridgeLimits
unfolding read_record read_integer
parse_limits value = do
  fields ←
      read_record
        (codes "max_peers"
          ∷ codes "max_message_bytes"
          ∷ codes "max_peer_queue_bytes"
          ∷ codes "max_channel_buffered_bytes"
          ∷ codes "video"
          ∷ [])
        value
  max_peers ← read_integer (get (codes "max_peers") fields)
  max_message_bytes ← read_integer (get (codes "max_message_bytes") fields)
  max_peer_queue_bytes ← read_integer (get (codes "max_peer_queue_bytes") fields)
  max_channel_buffered_bytes ← read_integer (get (codes "max_channel_buffered_bytes") fields)
  let limits : BridgeLimits = record {
    max_peers = max_peers;
    max_message_bytes = max_message_bytes;
    max_peer_queue_bytes = max_peer_queue_bytes;
    max_channel_buffered_bytes = max_channel_buffered_bytes;
  }
  require (fits limits) inconsistent_limits
  ok limits

-- `names.map(name => binding(name, entries[name], options))`
unfoldable pub bind_all : ConfigOptions → Members → Outcome (List TopicBinding)
unfolding binding
bind_all options empty = ok []
bind_all options (member name value rest) = do
  topic ← binding name (some value) options
  topics ← bind_all options rest
  ok (topic ∷ topics)

abbrev pub top_keys : List Text
top_keys =
    codes "version"
    ∷ codes "robot_id"
    ∷ codes "limits"
    ∷ codes "topics"
    ∷ codes "video"
    ∷ codes "video_tracks"
    ∷ []

unfoldable pub parse_bridge_config : YamlLibrary → Text → ConfigOptions → Outcome BridgeConfig
unfolding read_document read_integer read_record read_string parse_limits read_map bind_all
    check_outputs
parse_bridge_config library source options = do
  max_bytes ← read_integer (or_number options.max_config_bytes 1048576)
  max_topics ← read_integer (or_number options.max_topics 256)
  document ← read_document library source max_bytes
  fields ← read_record top_keys (some document)
  require (is_version (get (codes "version") fields)) unsupported_version
  robot_id ← read_string is_robot_id (get (codes "robot_id") fields)
  limits ← parse_limits (get (codes "limits") fields)
  entries ← read_map (get (codes "topics") fields)
  require (not (count entries == 0 || ltb max_topics (count entries))) topic_count
  topics ← bind_all options entries
  check_outputs topics
  ok (record { robot_id = robot_id; limits = limits; topics = topics })
