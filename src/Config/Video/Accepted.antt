-- ===== src/Config/Video/Accepted.antt =====
-- config/video.ts: a media plane that parseVideoConfig accepts.
use package.ros_webrtc_bridge.Prelude.{
  ℕ, ◌≤◌, ◌<◌, ◌≡◌, ◌≢◌, not, ◌||◌, ◌==◌, ltb, Option, none, some, List, [], length, Text, codes,
  arith,
}
use mathlib.Core.Path.{subst}
use mathlib.Core.List.{Memᴰ}
use package.ros_webrtc_bridge.Runtime.Outcome.{ok, Gives, Gives-then, require, video_track_count}
use package.ros_webrtc_bridge.Config.{TopicBinding}
use package.ros_webrtc_bridge.Config.Validation.{Yaml, get}
use package.ros_webrtc_bridge.Config.Bridge.{YamlLibrary, read_document, read_map, count}
use package.ros_webrtc_bridge.Config.Video.{VideoLimits, VideoBinding, VideoConfig, video_settings}
use package.ros_webrtc_bridge.Config.Video.Plane.{
  video_limits, bind_tracks, check_sources, video_bindings, check_exposed, topics_of, read_plane,
  parse_video_config,
}
use package.ros_webrtc_bridge.Config.Video.Bounds.{IsCodable, Read, bind_tracks-Gives}
use package.ros_webrtc_bridge.Config.Video.Sources.{Apart, check_sources-Apart, check_exposed-apart}

-- Tracks that may be served: at least one and at most the limit, each of which may be encoded, from
-- topics that differ.
abbrev AreServable : VideoLimits → List VideoBinding → Type 0
AreServable l tracks =
    (0 < length tracks)
    × (length tracks ≤ l.max_tracks)
    × ((b : VideoBinding) → Memᴰ b tracks → IsCodable l b)
    × Apart tracks

-- The same beside the topics that are served as messages.
pub record IsServable (topics : List TopicBinding) (c : VideoConfig) : Type 0 where
  pub some_there : 0 < length c.tracks
  pub counted : length c.tracks ≤ c.limits.max_tracks
  pub piped : c.limits.max_pipelines ≤ c.limits.max_tracks
  pub each : (b : VideoBinding) → Memᴰ b c.tracks → IsCodable c.limits b
  pub apart : Apart c.tracks
  pub unexposed :
      (b : VideoBinding) (t : TopicBinding)
      → Memᴰ b c.tracks
      → Memᴰ t topics
      → t.ros_topic ≢ b.ros_topic

video_limits-eq-ok :
    (v : Option Yaml) (l : VideoLimits) → video_limits v ≡ ok l → l.max_pipelines ≤ l.max_tracks
unfolding video_limits
video_limits-eq-ok v l h = grind arith

video_bindings-Gives :
    (v : Option Yaml) (l : VideoLimits) → Gives (AreServable l) (video_bindings v l)
unfolding video_bindings
video_bindings-Gives v l = Gives-then (AreServable l) (read_map v) _ λ entries _.
    Gives-then (AreServable l)
      (require (not (count entries == 0 || ltb l.max_tracks (count entries))) video_track_count) _
      λ _ room. Gives-then (AreServable l) (bind_tracks l entries) _ λ tracks found.
        Gives-then (AreServable l) (check_sources tracks []) (λ _. ok tracks)
          λ _ passed.
            let (each, counted) =
              subst (Gives (Read l entries)) found (bind_tracks-Gives l entries) in
            (ground arith, ground arith, each, (check_sources-Apart tracks [] passed).1)

-- Nothing is said of a document without a media plane.
abbrev Plane : List TopicBinding → Option VideoConfig → Type 0
Plane topics none = Unit
Plane topics (some c) = IsServable topics c

read_plane-Gives :
    (video tracks bounds : Option Yaml) (topics : List TopicBinding)
    → Gives (Plane topics) (read_plane video tracks bounds topics)
unfolding read_plane
read_plane-Gives none none none topics = tt
read_plane-Gives (some video) (some tracks_value) (some bounds) topics =
    Gives-then (Plane topics) (video_limits (some bounds)) _ λ limits limited.
      Gives-then (Plane topics) (video_bindings (some tracks_value) limits) _ λ tracks found.
        Gives-then (Plane topics) (check_exposed (topics_of topics) tracks) _ λ _ unexposed.
          Gives-then (Plane topics) (video_settings (some video))
            (λ settings.
              ok (some (record { settings = settings; limits = limits; tracks = tracks })))
            λ _ _.
              let (there, counted, each, apart) =
                subst (Gives (AreServable limits)) found
                  (video_bindings-Gives (some tracks_value) limits) in
              record {
                some_there = there;
                counted = counted;
                piped = video_limits-eq-ok (some bounds) limits limited;
                each = each;
                apart = apart;
                unexposed = λ b t m n. check_exposed-apart topics tracks b t unexposed m n;
              }
read_plane-Gives none none (some _) topics = tt
read_plane-Gives none (some _) none topics = tt
read_plane-Gives none (some _) (some _) topics = tt
read_plane-Gives (some _) none none topics = tt
read_plane-Gives (some _) none (some _) topics = tt
read_plane-Gives (some _) (some _) none topics = tt

parse_video_config-Gives :
    (library : YamlLibrary) (source : Text) (topics : List TopicBinding) (max_bytes : ℕ)
    → Gives (Plane topics) (parse_video_config library source topics max_bytes)
unfolding parse_video_config
parse_video_config-Gives library source topics max_bytes =
    Gives-then (Plane topics) (read_document library source max_bytes) _ λ document _.
      Gives-then (Plane topics) (read_map (some document)) _ λ fields _.
        Gives-then (Plane topics) (read_map (get (codes "limits") fields)) _ λ limits _.
          read_plane-Gives (get (codes "video") fields) (get (codes "video_tracks") fields)
            (get (codes "video") limits) topics

-- A media plane that is accepted beside these topics may be served: it has tracks, no more than its
-- limit of tracks, which its limit of pipelines does not exceed; each track's frames are within the limits, its
-- picture has even axes within them, its encoder supports the bitrate and the profile, and its QoS is
-- volatile; and no ROS topic feeds two tracks, or a track and a topic of messages.
pub parse_video_config-IsServable :
    (library : YamlLibrary) (source : Text) (topics : List TopicBinding) (max_bytes : ℕ)
    (c : VideoConfig)
    → parse_video_config library source topics max_bytes ≡ ok (some c)
    → IsServable topics c
parse_video_config-IsServable library source topics max_bytes c h =
    subst (Gives (Plane topics)) h (parse_video_config-Gives library source topics max_bytes)
