-- ===== src/Config/Video.antt =====
-- packages/bridge/src/config/video.ts: the validation of the media plane's configuration.
pub mod Plane
pub mod Bounds
pub mod Sources
pub mod Accepted
mod Tests
use package.ros_webrtc_bridge.Prelude.{
  ℕ, ◌%◌, Bool, true, false, not, ◌&&◌, ◌||◌, ◌==◌, Option, none, some, List, [], ◌∷◌, leb, ltb,
  is_some, Text, codes, same_text, all,
}
use package.ros_webrtc_bridge.Runtime.Outcome.{
  Outcome, ok, throw, require, ◌>>=◌, ◌>>◌, video_volatile, video_size_limits, video_odd_axis,
  video_bitrate, video_profile, video_track_count, duplicate_source, more_pipelines, exposed_topic,
  video_incomplete,
}
use package.ros_webrtc_bridge.Config.{RosQos, TopicBinding}
use package.ros_webrtc_bridge.Config.Validation.{
  Yaml, Members, empty, member, get, read_record, read_string, read_integer, choice, topic_name,
}
use package.ros_webrtc_bridge.Config.Binding.{ros_qos, is_volatile, is_scope, is_letter}
use package.ros_webrtc_bridge.Config.Bridge.{YamlLibrary, read_document, read_map, count}
use package.ros_webrtc_bridge.Session.Guard.Topic.{is_alnum}

pub data Encoding : Type 0 where
  rgb8 bgr8 mono8 : Encoding

pub data Backend : Type 0 where
  fixture l4t_v4l2 openh264 : Backend

pub data Profile : Type 0 where
  constrained_baseline main high : Profile

pub record VideoSettings : Type 0 where
  pub start_timeout_ms : ℕ
  pub stop_grace_ms : ℕ
  pub retry_min_interval_ms : ℕ
  pub pli_min_interval_ms : ℕ

pub record VideoLimits : Type 0 where
  pub max_tracks : ℕ
  pub max_pipelines : ℕ
  pub max_slots_per_peer : ℕ
  pub max_width : ℕ
  pub max_height : ℕ
  pub max_framerate : ℕ

pub record VideoInput : Type 0 where
  pub encoding : Encoding
  pub width : ℕ
  pub height : ℕ
  pub framerate : ℕ

pub record VideoOutput : Type 0 where
  pub width : ℕ
  pub height : ℕ

pub record VideoEncoder : Type 0 where
  pub backend : Backend
  pub bitrate : ℕ
  pub keyframe_interval : ℕ
  pub profile : Profile

pub record VideoBinding : Type 0 where
  pub name : Text
  pub ros_topic : Text
  pub ros_type : Text
  pub ros_qos : RosQos
  pub input : VideoInput
  pub output : Option VideoOutput
  pub encoder : VideoEncoder
  pub subscribe_scope : Text

pub record VideoConfig : Type 0 where
  pub settings : VideoSettings
  pub limits : VideoLimits
  pub tracks : List VideoBinding

-- `VIDEO_BACKENDS`
abbrev pub least_bitrate : Backend → ℕ
least_bitrate fixture = 1
least_bitrate l4t_v4l2 = 64000
least_bitrate openh264 = 64000

abbrev pub greatest_bitrate : Backend → ℕ
greatest_bitrate fixture = 100000000
greatest_bitrate l4t_v4l2 = 100000000
greatest_bitrate openh264 = 40000000

abbrev pub supports : Backend → Profile → Bool
supports backend constrained_baseline = true
supports l4t_v4l2 main = true
supports l4t_v4l2 high = true
supports fixture main = false
supports fixture high = false
supports openh264 main = false
supports openh264 high = false

abbrev pub is_even : ℕ → Bool
is_even n = n % 2 == 0

unfoldable pub video_settings : Option Yaml → Outcome VideoSettings
unfolding read_record read_integer
video_settings value = do
  fields ←
      read_record
        (codes "start_timeout_ms"
          ∷ codes "stop_grace_ms"
          ∷ codes "retry_min_interval_ms"
          ∷ codes "pli_min_interval_ms"
          ∷ [])
        value
  start_timeout_ms ← read_integer (get (codes "start_timeout_ms") fields)
  stop_grace_ms ← read_integer (get (codes "stop_grace_ms") fields)
  retry_min_interval_ms ← read_integer (get (codes "retry_min_interval_ms") fields)
  pli_min_interval_ms ← read_integer (get (codes "pli_min_interval_ms") fields)
  ok (record {
    start_timeout_ms = start_timeout_ms;
    stop_grace_ms = stop_grace_ms;
    retry_min_interval_ms = retry_min_interval_ms;
    pli_min_interval_ms = pli_min_interval_ms;
  })

unfoldable pub video_input : Option Yaml → VideoLimits → Outcome VideoInput
unfolding read_record read_integer choice
video_input value limits = do
  fields ←
      read_record (codes "encoding" ∷ codes "width" ∷ codes "height" ∷ codes "framerate" ∷ []) value
  encoding ←
      choice ((codes "rgb8", rgb8) ∷ (codes "bgr8", bgr8) ∷ (codes "mono8", mono8) ∷ [])
        (get (codes "encoding") fields)
  width ← read_integer (get (codes "width") fields)
  height ← read_integer (get (codes "height") fields)
  framerate ← read_integer (get (codes "framerate") fields)
  require
      (leb width limits.max_width
        && leb height limits.max_height
        && leb framerate limits.max_framerate)
      video_size_limits
  ok (record { encoding = encoding; width = width; height = height; framerate = framerate })

unfoldable pub video_output : Yaml → VideoLimits → Outcome VideoOutput
unfolding read_record read_integer
video_output value limits = do
  fields ← read_record (codes "width" ∷ codes "height" ∷ []) (some value)
  width ← read_integer (get (codes "width") fields)
  height ← read_integer (get (codes "height") fields)
  require (leb width limits.max_width && leb height limits.max_height) video_size_limits
  require (is_even width && is_even height) video_odd_axis
  ok (record { width = width; height = height })

-- The output, if there is one; without one the input's axes are even.
unfoldable pub output_of : Option Yaml → VideoInput → VideoLimits → Outcome (Option VideoOutput)
unfolding video_output
output_of none input limits =
    require (is_even input.width && is_even input.height) video_odd_axis >> ok none
output_of (some value) input limits = video_output value limits >>= λ output. ok (some output)

unfoldable pub video_encoder : Option Yaml → Outcome VideoEncoder
unfolding read_record read_integer choice
video_encoder value = do
  fields ←
      read_record
        (codes "codec"
          ∷ codes "backend"
          ∷ codes "bitrate"
          ∷ codes "keyframe_interval"
          ∷ codes "profile"
          ∷ [])
        value
  _ ← choice ((codes "h264", true) ∷ []) (get (codes "codec") fields)
  backend ←
      choice
        ((codes "fixture", fixture)
          ∷ (codes "l4t_v4l2", l4t_v4l2)
          ∷ (codes "openh264", openh264)
          ∷ [])
        (get (codes "backend") fields)
  bitrate ← read_integer (get (codes "bitrate") fields)
  require (leb (least_bitrate backend) bitrate && leb bitrate (greatest_bitrate backend))
      video_bitrate
  profile ←
      choice
        ((codes "constrained_baseline", constrained_baseline)
          ∷ (codes "main", main)
          ∷ (codes "high", high)
          ∷ [])
        (get (codes "profile") fields)
  require (supports backend profile) video_profile
  keyframe_interval ← read_integer (get (codes "keyframe_interval") fields)
  ok (record {
    backend = backend;
    bitrate = bitrate;
    keyframe_interval = keyframe_interval;
    profile = profile;
  })

-- `/^[A-Za-z][A-Za-z0-9_]*$/`
abbrev pub is_track_name : Text → Bool
is_track_name [] = false
is_track_name (c ∷ cs) = is_letter c && all is_alnum cs

abbrev pub track_keys : List Text
track_keys =
    codes "ros_topic"
    ∷ codes "ros_type"
    ∷ codes "ros_qos"
    ∷ codes "input"
    ∷ codes "output"
    ∷ codes "encoder"
    ∷ codes "access"
    ∷ []

unfoldable pub video_binding : Text → Option Yaml → VideoLimits → Outcome VideoBinding
unfolding read_record topic_name read_string ros_qos video_input output_of video_encoder is_scope
video_binding name value limits = do
  _ ← read_string is_track_name (some (Yaml.string name))
  fields ← read_record track_keys value
  ros_topic ← topic_name (get (codes "ros_topic") fields)
  ros_type ←
      read_string (λ t. same_text t (codes "sensor_msgs/msg/Image")) (get (codes "ros_type") fields)
  qos ← ros_qos (get (codes "ros_qos") fields)
  require (is_volatile qos.durability) video_volatile
  access ← read_record (codes "subscribe_scope" ∷ []) (get (codes "access") fields)
  input ← video_input (get (codes "input") fields) limits
  output ← output_of (get (codes "output") fields) input limits
  encoder ← video_encoder (get (codes "encoder") fields)
  subscribe_scope ← read_string is_scope (get (codes "subscribe_scope") access)
  ok (record {
    name = name;
    ros_topic = ros_topic;
    ros_type = ros_type;
    ros_qos = qos;
    input = input;
    output = output;
    encoder = encoder;
    subscribe_scope = subscribe_scope;
  })
