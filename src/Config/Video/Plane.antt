-- ===== src/Config/Video/Plane.antt =====
-- config/video.ts: the limits, the tracks together, and parseVideoConfig.
use package.ros_webrtc_bridge.Prelude.{
  ℕ, not, ◌||◌, ◌==◌, Option, none, some, List, [], ◌∷◌, leb, ltb, Text, codes,
}
use package.ros_webrtc_bridge.Runtime.Outcome.{
  Outcome, ok, throw, require, ◌>>=◌, ◌>>◌, video_track_count, duplicate_source, more_pipelines,
  exposed_topic, video_incomplete,
}
use package.ros_webrtc_bridge.Config.{TopicBinding}
use package.ros_webrtc_bridge.Config.Validation.{
  Yaml, Members, empty, member, get, read_record, read_integer,
}
use package.ros_webrtc_bridge.Config.Bridge.{YamlLibrary, read_document, read_map, count}
use package.ros_webrtc_bridge.Config.Video.{
  VideoLimits, VideoBinding, VideoConfig, video_binding, video_settings,
}
use package.ros_webrtc_bridge.Router.Protocol.{includes}

unfoldable pub video_limits : Option Yaml → Outcome VideoLimits
unfolding read_record read_integer
video_limits value = do
  fields ←
      read_record
        (codes "max_tracks"
          ∷ codes "max_pipelines"
          ∷ codes "max_slots_per_peer"
          ∷ codes "max_width"
          ∷ codes "max_height"
          ∷ codes "max_framerate"
          ∷ [])
        value
  max_tracks ← read_integer (get (codes "max_tracks") fields)
  max_pipelines ← read_integer (get (codes "max_pipelines") fields)
  max_slots_per_peer ← read_integer (get (codes "max_slots_per_peer") fields)
  max_width ← read_integer (get (codes "max_width") fields)
  max_height ← read_integer (get (codes "max_height") fields)
  max_framerate ← read_integer (get (codes "max_framerate") fields)
  require (leb max_pipelines max_tracks) more_pipelines
  ok (record {
    max_tracks = max_tracks;
    max_pipelines = max_pipelines;
    max_slots_per_peer = max_slots_per_peer;
    max_width = max_width;
    max_height = max_height;
    max_framerate = max_framerate;
  })

unfoldable pub bind_tracks : VideoLimits → Members → Outcome (List VideoBinding)
unfolding video_binding
bind_tracks limits empty = ok []
bind_tracks limits (member name value rest) = do
  track ← video_binding name (some value) limits
  tracks ← bind_tracks limits rest
  ok (track ∷ tracks)

-- The loop over the tracks: `sources` are the topics so far.
unfoldable pub check_sources : List VideoBinding → List Text → Outcome (Unit {0})
check_sources [] sources = ok tt
check_sources (track ∷ rest) sources =
    require (not (includes sources track.ros_topic)) duplicate_source
    >> check_sources rest (track.ros_topic ∷ sources)

unfoldable pub video_bindings : Option Yaml → VideoLimits → Outcome (List VideoBinding)
unfolding read_map bind_tracks check_sources
video_bindings value limits = do
  entries ← read_map value
  require (not (count entries == 0 || ltb limits.max_tracks (count entries))) video_track_count
  tracks ← bind_tracks limits entries
  check_sources tracks []
  ok tracks

unfoldable pub check_exposed : List Text → List VideoBinding → Outcome (Unit {0})
check_exposed exposed [] = ok tt
check_exposed exposed (track ∷ rest) =
    require (not (includes exposed track.ros_topic)) exposed_topic >> check_exposed exposed rest

abbrev pub topics_of : List TopicBinding → List Text
topics_of [] = []
topics_of (topic ∷ rest) = topic.ros_topic ∷ topics_of rest

-- The three sections of the media plane, which come together.
unfoldable pub read_plane :
    Option Yaml → Option Yaml → Option Yaml → List TopicBinding → Outcome (Option VideoConfig)
unfolding video_limits video_bindings check_exposed video_settings
read_plane none none none topics = ok none
read_plane (some video) (some tracks_value) (some bounds) topics = do
  limits ← video_limits (some bounds)
  tracks ← video_bindings (some tracks_value) limits
  check_exposed (topics_of topics) tracks
  settings ← video_settings (some video)
  ok (some (record { settings = settings; limits = limits; tracks = tracks }))
read_plane _ _ _ topics = throw video_incomplete

unfoldable pub parse_video_config :
    YamlLibrary → Text → List TopicBinding → ℕ → Outcome (Option VideoConfig)
unfolding read_document read_map read_plane
parse_video_config library source topics max_bytes = do
  document ← read_document library source max_bytes
  fields ← read_map (some document)
  limits ← read_map (get (codes "limits") fields)
  read_plane (get (codes "video") fields) (get (codes "video_tracks") fields)
      (get (codes "video") limits) topics
