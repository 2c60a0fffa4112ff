-- ===== src/Config/Video/Tests.antt =====
-- config/video.ts at a concrete document, and the theorem applied.
use package.ros_webrtc_bridge.Prelude.{
  ℕ, ◌≡◌, refl, none, some, [], ◌∷◌, length, codes, text_discrete,
}
use package.ros_webrtc_bridge.Prelude.Dict.{lookup}
use package.ros_webrtc_bridge.Runtime.Outcome.{ok}
use package.ros_webrtc_bridge.Config.{
  Reliability, Durability, Delivery, latest, ros_to_web, TopicBinding,
}
use package.ros_webrtc_bridge.Config.Validation.{
  Yaml, quotient, empty, member, string, number, map, read_record, read_string, read_positive,
  read_integer, choice, topic_name,
}
use package.ros_webrtc_bridge.Config.Binding.{is_scope, ros_qos}
use package.ros_webrtc_bridge.Config.Bridge.{YamlLibrary, read_document, read_map}
use package.ros_webrtc_bridge.Config.Video.{
  VideoConfig, mono8, fixture, constrained_baseline, video_settings, video_input, video_output,
  output_of, video_encoder, video_binding,
}
use package.ros_webrtc_bridge.Config.Video.Plane.{
  video_limits, bind_tracks, check_sources, video_bindings, check_exposed, read_plane,
  parse_video_config,
}
use package.ros_webrtc_bridge.Config.Video.Accepted.{IsServable, parse_video_config-IsServable}
use package.ros_webrtc_bridge.Session.Guard.Topic.{is_topic, is_names}

abbrev whole : ℕ → Yaml
whole n = number (quotient (record { numerator = n; denominator = 1 }))

abbrev track : Yaml
track = map (
    member (codes "ros_topic") (string (codes "/cam")) (
      member (codes "ros_type") (string (codes "sensor_msgs/msg/Image")) (
        member (codes "ros_qos")
          (map (
            member (codes "reliability") (string (codes "best_effort")) (
              member (codes "durability") (string (codes "volatile")) (
                member (codes "history") (string (codes "keep_last"))
                  (member (codes "depth") (whole 1) empty)))))
          (member (codes "input")
            (map (
              member (codes "encoding") (string (codes "mono8")) (
                member (codes "width") (whole 33) (
                  member (codes "height") (whole 16)
                    (member (codes "framerate") (whole 15) empty)))))
            (member (codes "output")
              (map (member (codes "width") (whole 32) (member (codes "height") (whole 16) empty)))
              (member (codes "encoder")
                (map (
                  member (codes "codec") (string (codes "h264")) (
                    member (codes "backend") (string (codes "fixture")) (
                      member (codes "bitrate") (whole 5000) (
                        member (codes "keyframe_interval") (whole 30) (
                          member (codes "profile") (string (codes "constrained_baseline"))
                            empty))))))
                (member (codes "access")
                  (map (member (codes "subscribe_scope") (string (codes "view")) empty))
                  empty)))))))

abbrev document : Yaml
document = map (
    member (codes "limits")
      (map (
        member (codes "video")
          (map (
            member (codes "max_tracks") (whole 2) (
              member (codes "max_pipelines") (whole 1) (
                member (codes "max_slots_per_peer") (whole 1) (
                  member (codes "max_width") (whole 64) (
                    member (codes "max_height") (whole 64)
                      (member (codes "max_framerate") (whole 30) empty)))))))
          empty))
      (member (codes "video")
        (map (
          member (codes "start_timeout_ms") (whole 1) (
            member (codes "stop_grace_ms") (whole 2) (
              member (codes "retry_min_interval_ms") (whole 3)
                (member (codes "pli_min_interval_ms") (whole 4) empty)))))
        (member (codes "video_tracks") (map (member (codes "front") track empty)) empty)))

abbrev library : YamlLibrary
library = record { byte_length = λ t. length t; parse_document = λ _. some document }

abbrev plane : VideoConfig
plane = record {
  settings = record {
    start_timeout_ms = 1;
    stop_grace_ms = 2;
    retry_min_interval_ms = 3;
    pli_min_interval_ms = 4;
  };
  limits = record {
    max_tracks = 2;
    max_pipelines = 1;
    max_slots_per_peer = 1;
    max_width = 64;
    max_height = 64;
    max_framerate = 30;
  };
  tracks =
      record {
        name = codes "front";
        ros_topic = codes "/cam";
        ros_type = codes "sensor_msgs/msg/Image";
        ros_qos = record {
          reliability = Reliability.best_effort;
          durability = Durability.volatile;
          depth = 1;
        };
        input = record { encoding = mono8; width = 33; height = 16; framerate = 15 };
        output = some (record { width = 32; height = 16 });
        encoder = record {
          backend = fixture;
          bitrate = 5000;
          keyframe_interval = 30;
          profile = constrained_baseline;
        };
        subscribe_scope = codes "view";
      }
      ∷ [];
}

abbrev scan : TopicBinding
scan = record {
  public_name = codes "/scan";
  ros_topic = codes "/scan";
  ros_type = codes "sensor_msgs/msg/LaserScan";
  direction = ros_to_web;
  ros_qos = record {
    reliability = Reliability.best_effort;
    durability = Durability.volatile;
    depth = 1;
  };
  delivery = Delivery.realtime;
  max_rate_hz = record { numerator = 5; denominator = 1 };
  policy = latest;
  max_messages = 1;
  access = none;
  command_guard = none;
}

reads_plane : parse_video_config library (codes "x") (scan ∷ []) 16 ≡ ok (some plane)
unfolding read_record read_string read_positive read_integer choice topic_name is_scope ros_qos
    read_document read_map video_settings video_input video_output output_of video_encoder
    video_binding video_limits bind_tracks check_sources video_bindings check_exposed read_plane
    parse_video_config lookup text_discrete is_topic is_names
reads_plane = refl

parse_video_config-IsServable_example : IsServable (scan ∷ []) plane
parse_video_config-IsServable_example =
    parse_video_config-IsServable library (codes "x") (scan ∷ []) 16 plane reads_plane
