-- ===== src/Config/Binding.antt =====
-- packages/bridge/src/config/binding.ts: the validation of a topic's configuration, and of the topics
-- together.
use package.ros_webrtc_bridge.Prelude.{
  ℕ, Bool, true, false, not, ◌&&◌, ◌||◌, ◌==◌, Option, none, some, List, [], ◌∷◌, Text, codes, all,
  if◌then◌else◌,
}
use package.ros_webrtc_bridge.Runtime.Outcome.{
  Outcome, ok, require, ◌>>=◌, ◌>>◌, type_unavailable, queue_conflict, one_message_required,
  access_direction, guard_required, required_not_true, command_requirements,
}
use package.ros_webrtc_bridge.Config.{
  Direction, ros_to_web, web_to_ros, Delivery, QueuePolicy, latest, fifo, Reliability, Durability,
  RosQos, Access, TopicBinding,
}
use package.ros_webrtc_bridge.Config.Validation.{
  Yaml, Number, string, get, read_record, read_string, read_positive, read_integer, choice,
  read_boolean, topic_name,
}
use package.ros_webrtc_bridge.Session.Guard.Topic.{is_alpha, is_alnum}
use package.ros_webrtc_bridge.Router.Protocol.{includes}

pub record ConfigOptions : Type 0 where
  pub available_types : List Text
  pub resolve_topic : Text → Text
  pub max_config_bytes : Option Number
  pub max_topics : Option Number

abbrev pub is_letter : ℕ → Bool
is_letter c = is_alpha c && not (c == b'_')

-- `/^[A-Za-z][A-Za-z0-9_]*\/msg\/[A-Za-z][A-Za-z0-9_]*$/`, behind the package's first letter.
abbrev pub is_message : Text → Bool
is_message (c ∷ cs) = is_letter c && all is_alnum cs
is_message [] = false

abbrev pub is_msg : Text → Bool
is_msg (m ∷ s ∷ g ∷ d ∷ rest) = m == b'm' && s == b's' && g == b'g' && d == b'/' && is_message rest
is_msg _ = false

abbrev pub is_package : Text → Bool
is_package [] = false
is_package (c ∷ cs) = if c == b'/' then is_msg cs else is_alnum c && is_package cs

unfoldable pub is_ros_type : Text → Bool
is_ros_type [] = false
is_ros_type (c ∷ cs) = is_letter c && is_package cs

-- `/^[A-Za-z0-9_.:-]+$/`
unfoldable pub is_scope : Text → Bool
is_scope [] = false
is_scope (c ∷ cs) = all (λ d. is_alnum d || d == b'.' || d == b':' || d == b'-') (c ∷ cs)

unfoldable pub ros_qos : Option Yaml → Outcome RosQos
unfolding read_record choice read_integer
ros_qos value = do
  qos ←
      read_record (codes "reliability" ∷ codes "durability" ∷ codes "history" ∷ codes "depth" ∷ [])
        value
  reliability ←
      choice
        ((codes "reliable", Reliability.reliable)
          ∷ (codes "best_effort", Reliability.best_effort)
          ∷ [])
        (get (codes "reliability") qos)
  durability ←
      choice
        ((codes "volatile", Durability.volatile)
          ∷ (codes "transient_local", Durability.transient_local)
          ∷ [])
        (get (codes "durability") qos)
  _ ← choice ((codes "keep_last", true) ∷ []) (get (codes "history") qos)
  depth ← read_integer (get (codes "depth") qos)
  ok (record { reliability = reliability; durability = durability; depth = depth })

abbrev pub is_command : Direction → Bool
is_command web_to_ros = true
is_command ros_to_web = false

unfoldable pub parse_access : Option Yaml → Direction → Outcome (Option Access)
unfolding read_record read_string read_boolean is_scope
parse_access none direction = ok none
parse_access (some value) direction = do
  require (is_command direction) access_direction
  access ← read_record (codes "publish_scope" ∷ codes "exclusive_writer" ∷ []) (some value)
  scope ← read_string is_scope (get (codes "publish_scope") access)
  exclusive ← read_boolean (get (codes "exclusive_writer") access)
  ok (some (record { publish_scope = scope; exclusive_writer = exclusive }))

-- `access?.exclusiveWriter`
abbrev pub is_exclusive : Option Access → Bool
is_exclusive none = false
is_exclusive (some access) = access.exclusive_writer

abbrev pub is_volatile : Durability → Bool
is_volatile Durability.volatile = true
is_volatile Durability.transient_local = false

abbrev pub is_true : Option Yaml → Bool
is_true (some (Yaml.boolean b)) = b
is_true _ = false

unfoldable pub parse_guard :
    Option Yaml → Direction → Durability → Option Access → Outcome (Option ℕ)
unfolding read_record read_integer
parse_guard none direction durability access =
    require (not (is_exclusive access)) guard_required >> ok none
parse_guard (some value) direction durability access = do
  guard ← read_record (codes "required" ∷ codes "lease_ms" ∷ []) (some value)
  require (is_true (get (codes "required") guard)) required_not_true
  require (is_command direction && is_volatile durability && is_exclusive access)
      command_requirements
  lease_ms ← read_integer (get (codes "lease_ms") guard)
  ok (some lease_ms)

abbrev pub is_reliable : Delivery → Bool
is_reliable Delivery.reliable = true
is_reliable Delivery.realtime = false

abbrev pub is_fifo : QueuePolicy → Bool
is_fifo fifo = true
is_fifo latest = false

abbrev pub agrees : Bool → Bool → Bool
agrees true b = b
agrees false b = not b

-- The queue, its policy and its limit, which are tested with the delivery.
unfoldable pub read_queue : Option Yaml → Delivery → Outcome (QueuePolicy × ℕ)
unfolding read_record choice read_integer
read_queue value delivery = do
  queue ← read_record (codes "policy" ∷ codes "max_messages" ∷ []) value
  policy ←
      choice ((codes "latest", latest) ∷ (codes "fifo", fifo) ∷ []) (get (codes "policy") queue)
  max_messages ← read_integer (get (codes "max_messages") queue)
  require (agrees (is_reliable delivery) (is_fifo policy)) queue_conflict
  require (is_fifo policy || max_messages == 1) one_message_required
  ok (policy, max_messages)

abbrev pub or_name : Text → Option Yaml → Option Yaml
or_name name none = some (string name)
or_name name (some value) = some value

abbrev pub directions : List (Text × Direction)
directions = (codes "ros_to_web", ros_to_web) ∷ (codes "web_to_ros", web_to_ros) ∷ []

abbrev pub deliveries : List (Text × Delivery)
deliveries = (codes "reliable", Delivery.reliable) ∷ (codes "realtime", Delivery.realtime) ∷ []

abbrev pub allowed_keys : List Text
allowed_keys =
    codes "ros_topic"
    ∷ codes "ros_type"
    ∷ codes "direction"
    ∷ codes "ros_qos"
    ∷ codes "delivery"
    ∷ codes "max_rate_hz"
    ∷ codes "queue"
    ∷ codes "access"
    ∷ codes "command_guard"
    ∷ []

unfoldable pub binding : Text → Option Yaml → ConfigOptions → Outcome TopicBinding
unfolding read_record topic_name read_string is_ros_type choice ros_qos read_positive read_queue
    parse_access parse_guard
binding name value options = do
  map ← read_record allowed_keys value
  public_name ← topic_name (some (string name))
  target ← topic_name (or_name name (get (codes "ros_topic") map))
  ros_topic ← topic_name (some (string (options.resolve_topic target)))
  ros_type ← read_string is_ros_type (get (codes "ros_type") map)
  require (includes options.available_types ros_type) type_unavailable
  direction ← choice directions (get (codes "direction") map)
  qos ← ros_qos (get (codes "ros_qos") map)
  delivery ← choice deliveries (get (codes "delivery") map)
  max_rate_hz ← read_positive (get (codes "max_rate_hz") map)
  (policy, max_messages) ← read_queue (get (codes "queue") map) delivery
  access ← parse_access (get (codes "access") map) direction
  command_guard ← parse_guard (get (codes "command_guard") map) direction qos.durability access
  ok (record {
    public_name = public_name;
    ros_topic = ros_topic;
    ros_type = ros_type;
    direction = direction;
    ros_qos = qos;
    delivery = delivery;
    max_rate_hz = max_rate_hz;
    policy = policy;
    max_messages = max_messages;
    access = access;
    command_guard = command_guard;
  })
