-- ===== src/Config/Tests.antt =====
-- config/binding.ts at concrete inputs, and the theorems applied.
use package.ros_webrtc_bridge.Prelude.{
  ℕ, ◌≡◌, refl, true, none, some, [], ◌∷◌, length, Text, codes, text_discrete,
}
use package.ros_webrtc_bridge.Prelude.Dict.{lookup, put}
use package.ros_webrtc_bridge.Runtime.Outcome.{ok, throw, queue_conflict}
use package.ros_webrtc_bridge.Config.{
  web_to_ros, Delivery, latest, Reliability, Durability, TopicBinding,
}
use package.ros_webrtc_bridge.Config.Validation.{
  Yaml, quotient, empty, member, string, number, boolean, map, read_record, read_string,
  read_positive, read_integer, choice, read_boolean, topic_name,
}
use package.ros_webrtc_bridge.Config.Binding.{
  ConfigOptions, is_ros_type, is_scope, ros_qos, parse_access, parse_guard, read_queue, binding,
}
use package.ros_webrtc_bridge.Config.Outputs.{same_contract, check_on, check_outputs}
use package.ros_webrtc_bridge.Config.Bridge.{
  YamlLibrary, BridgeConfig, read_document, read_map, parse_limits, bind_all, parse_bridge_config,
}
use package.ros_webrtc_bridge.Config.Deployment.{IsDeployable, parse_bridge_config-IsDeployable}
use package.ros_webrtc_bridge.Session.Guard.Topic.{is_topic, is_names}

program : Unit {0}
unfolding read_record read_string read_positive read_integer choice read_boolean topic_name
    is_ros_type is_scope ros_qos parse_access parse_guard read_queue binding same_contract check_on
    check_outputs lookup put text_discrete is_topic is_names
program = tt

abbrev whole : ℕ → Yaml
whole n = number (quotient (record { numerator = n; denominator = 1 }))

abbrev queue_of : Text → Yaml
queue_of policy =
    map (member (codes "policy") (string policy) (member (codes "max_messages") (whole 1) empty))

-- A guarded command topic, with this delivery.
abbrev command : Text → Yaml
command delivery = map (
    member (codes "ros_type") (string (codes "geometry_msgs/msg/Twist")) (
      member (codes "direction") (string (codes "web_to_ros")) (
        member (codes "ros_qos")
          (map (
            member (codes "reliability") (string (codes "reliable")) (
              member (codes "durability") (string (codes "volatile")) (
                member (codes "history") (string (codes "keep_last"))
                  (member (codes "depth") (whole 1) empty)))))
          (member (codes "delivery") (string delivery) (
            member (codes "max_rate_hz") (whole 20) (
              member (codes "queue") (queue_of (codes "latest")) (
                member (codes "access")
                  (map (
                    member (codes "publish_scope") (string (codes "drive"))
                      (member (codes "exclusive_writer") (boolean true) empty)))
                  (member (codes "command_guard")
                    (map (
                      member (codes "required") (boolean true)
                        (member (codes "lease_ms") (whole 250) empty)))
                    empty))))))))

abbrev options : ConfigOptions
options = record {
  available_types = codes "geometry_msgs/msg/Twist" ∷ [];
  resolve_topic = λ t. t;
  max_config_bytes = none;
  max_topics = none;
}

abbrev drive : TopicBinding
drive = record {
  public_name = codes "/cmd_vel";
  ros_topic = codes "/cmd_vel";
  ros_type = codes "geometry_msgs/msg/Twist";
  direction = web_to_ros;
  ros_qos = record {
    reliability = Reliability.reliable;
    durability = Durability.volatile;
    depth = 1;
  };
  delivery = Delivery.realtime;
  max_rate_hz = record { numerator = 20; denominator = 1 };
  policy = latest;
  max_messages = 1;
  access = some (record { publish_scope = codes "drive"; exclusive_writer = true });
  command_guard = some 250;
}

reads_drive : binding (codes "/cmd_vel") (some (command (codes "realtime"))) options ≡ ok drive
unfolding program
reads_drive = refl

-- A reliable delivery does not go with a queue of the latest message.
refuses_conflict :
    binding (codes "/cmd_vel") (some (command (codes "reliable"))) options ≡ throw queue_conflict
unfolding program
refuses_conflict = refl

-- The same output under another public name.
abbrev alias : TopicBinding
alias = record drive { public_name = codes "/drive" }

passes : check_outputs (drive ∷ alias ∷ []) ≡ ok tt
unfolding program
passes = refl

-- A document with this one topic, whatever its text is.
abbrev document : Yaml
document = map (
    member (codes "version") (whole 1) (
      member (codes "robot_id") (string (codes "r1")) (
        member (codes "limits")
          (map (
            member (codes "max_peers") (whole 4) (
              member (codes "max_message_bytes") (whole 1024) (
                member (codes "max_peer_queue_bytes") (whole 4096)
                  (member (codes "max_channel_buffered_bytes") (whole 2048) empty)))))
          (member (codes "topics")
            (map (member (codes "/cmd_vel") (command (codes "realtime")) empty)) empty))))

abbrev library : YamlLibrary
library = record { byte_length = λ t. length t; parse_document = λ _. some document }

abbrev deployed : BridgeConfig
deployed = record {
  robot_id = codes "r1";
  limits = record {
    max_peers = 4;
    max_message_bytes = 1024;
    max_peer_queue_bytes = 4096;
    max_channel_buffered_bytes = 2048;
  };
  topics = drive ∷ [];
}

reads_document : parse_bridge_config library (codes "x") options ≡ ok deployed
unfolding program read_document read_map parse_limits bind_all parse_bridge_config
reads_document = refl

parse_bridge_config-IsDeployable_example : IsDeployable deployed
parse_bridge_config-IsDeployable_example =
    parse_bridge_config-IsDeployable library (codes "x") options deployed reads_document
