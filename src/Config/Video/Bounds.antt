-- ===== src/Config/Video/Bounds.antt =====
-- config/video.ts: what a media plane that is accepted keeps to.
use package.ros_webrtc_bridge.Prelude.{
  ℕ, ◌%◌, ◌≤◌, ◌≡◌, refl, sym, true, Option, none, some, List, [], ◌∷◌, length, Text, codes,
  same_text, arith, inl, inr,
}
use mathlib.Core.Path.{subst}
use mathlib.Core.List.{Memᴰ}
use mathlib.Core.List.Memᴰ
use package.ros_webrtc_bridge.Runtime.Outcome.{ok, Gives, Gives-then, require, video_volatile}
use package.ros_webrtc_bridge.Config.Validation.{
  Yaml, Members, empty, member, get, read_record, read_string, topic_name,
}
use package.ros_webrtc_bridge.Config.Binding.{ros_qos, is_volatile, is_scope}
use package.ros_webrtc_bridge.Config.Bridge.{count}
use package.ros_webrtc_bridge.Config.Video.{
  VideoLimits, VideoInput, VideoOutput, VideoEncoder, VideoBinding, least_bitrate, greatest_bitrate,
  supports, video_input, video_output, output_of, video_encoder, is_track_name, track_keys,
  video_binding,
}
use package.ros_webrtc_bridge.Config.Video.Plane.{bind_tracks}

-- The size of the encoded picture.
abbrev pub coded_width : VideoBinding → ℕ
coded_width b = elim b.output [ none ↦ b.input.width | some output ↦ output.width ]

abbrev pub coded_height : VideoBinding → ℕ
coded_height b = elim b.output [ none ↦ b.input.height | some output ↦ output.height ]

-- A track that may be encoded: its frames are within the limits, its picture has even axes within the
-- limits, and its encoder supports the bitrate and the profile.
pub record IsCodable (l : VideoLimits) (b : VideoBinding) : Type 0 where
  pub wide : b.input.width ≤ l.max_width
  pub high : b.input.height ≤ l.max_height
  pub fast : b.input.framerate ≤ l.max_framerate
  pub even : (coded_width b % 2 ≡ 0) × (coded_height b % 2 ≡ 0)
  pub coded : (coded_width b ≤ l.max_width) × (coded_height b ≤ l.max_height)
  pub rated :
      (least_bitrate b.encoder.backend ≤ b.encoder.bitrate)
      × (b.encoder.bitrate ≤ greatest_bitrate b.encoder.backend)
  pub supported : supports b.encoder.backend b.encoder.profile ≡ true
  pub fresh : is_volatile b.ros_qos.durability ≡ true

video_input-eq-ok :
    (v : Option Yaml) (l : VideoLimits) (i : VideoInput)
    → video_input v l ≡ ok i
    → (i.width ≤ l.max_width) × (i.height ≤ l.max_height) × (i.framerate ≤ l.max_framerate)
unfolding video_input
video_input-eq-ok v l i h = (grind arith, grind arith, grind arith)

video_output-eq-ok :
    (v : Yaml) (l : VideoLimits) (o : VideoOutput)
    → video_output v l ≡ ok o
    → (o.width % 2 ≡ 0) × (o.height % 2 ≡ 0) × (o.width ≤ l.max_width) × (o.height ≤ l.max_height)
unfolding video_output
video_output-eq-ok v l o h = (grind arith, grind arith, grind arith, grind arith)

video_encoder-eq-ok :
    (v : Option Yaml) (e : VideoEncoder)
    → video_encoder v ≡ ok e
    → (least_bitrate e.backend ≤ e.bitrate)
      × (e.bitrate ≤ greatest_bitrate e.backend)
      × (supports e.backend e.profile ≡ true)
unfolding video_encoder
video_encoder-eq-ok v e h = (grind arith, grind arith, grind arith)

output_of-eq-ok :
    (v : Option Yaml) (i : VideoInput) (l : VideoLimits) (o : Option VideoOutput)
    → output_of v i l ≡ ok o
    → (i.width ≤ l.max_width)
    → (i.height ≤ l.max_height)
    → (elim o [ none ↦ i.width | some x ↦ x.width ] % 2 ≡ 0)
      × (elim o [ none ↦ i.height | some x ↦ x.height ] % 2 ≡ 0)
      × (elim o [ none ↦ i.width | some x ↦ x.width ] ≤ l.max_width)
      × (elim o [ none ↦ i.height | some x ↦ x.height ] ≤ l.max_height)
unfolding output_of
output_of-eq-ok none i l none h wide high = (grind arith, grind arith, wide, high)
output_of-eq-ok none i l (some x) h wide high = absurd (grind arith)
output_of-eq-ok (some v) i l none h wide high = absurd (grind arith)
output_of-eq-ok (some v) i l (some x) h wide high = video_output-eq-ok v l x (grind arith)

video_binding-Gives :
    (name : Text) (value : Option Yaml) (l : VideoLimits)
    → Gives (IsCodable l) (video_binding name value l)
unfolding video_binding
video_binding-Gives name value l =
    Gives-then (IsCodable l) (read_string is_track_name (some (Yaml.string name))) _ λ _ _.
      Gives-then (IsCodable l) (read_record track_keys value) _ λ fields _.
        Gives-then (IsCodable l) (topic_name (get (codes "ros_topic") fields)) _ λ ros_topic _.
          Gives-then (IsCodable l)
            (read_string (λ t. same_text t (codes "sensor_msgs/msg/Image"))
              (get (codes "ros_type") fields))
            _
            λ ros_type _.
              Gives-then (IsCodable l) (ros_qos (get (codes "ros_qos") fields)) _ λ qos _.
                Gives-then (IsCodable l) (require (is_volatile qos.durability) video_volatile) _
                  λ _ fresh.
                    Gives-then (IsCodable l)
                      (read_record (codes "subscribe_scope" ∷ []) (get (codes "access") fields)) _
                      λ access _.
                        Gives-then (IsCodable l) (video_input (get (codes "input") fields) l) _
                          λ input sized.
                            Gives-then (IsCodable l)
                              (output_of (get (codes "output") fields) input l) _
                              λ output shaped.
                                Gives-then (IsCodable l)
                                  (video_encoder (get (codes "encoder") fields)) _
                                  λ encoder chosen.
                                    Gives-then (IsCodable l)
                                      (read_string is_scope (get (codes "subscribe_scope") access))
                                      (λ subscribe_scope. ok (record {
                                        name = name;
                                        ros_topic = ros_topic;
                                        ros_type = ros_type;
                                        ros_qos = qos;
                                        input = input;
                                        output = output;
                                        encoder = encoder;
                                        subscribe_scope = subscribe_scope;
                                      }))
                                      λ _ _.
                                        let (wide, high, fast) =
                                          video_input-eq-ok (get (codes "input") fields) l input
                                            sized in
                                        let (even_width, even_height, coded_wide, coded_high) =
                                          output_of-eq-ok (get (codes "output") fields) input l
                                            output shaped wide high in
                                        let (least, greatest, supported) =
                                          video_encoder-eq-ok (get (codes "encoder") fields) encoder
                                            chosen in
                                        record {
                                          wide = wide;
                                          high = high;
                                          fast = fast;
                                          even = (even_width, even_height);
                                          coded = (coded_wide, coded_high);
                                          rated = (least, greatest);
                                          supported = supported;
                                          fresh = ground arith;
                                        }

-- Every track read may be encoded, and there are as many as entries.
abbrev pub Read : VideoLimits → Members → List VideoBinding → Type 0
Read l entries tracks =
    ((b : VideoBinding) → Memᴰ b tracks → IsCodable l b) × (length tracks ≡ count entries)

pub bind_tracks-Gives :
    (l : VideoLimits) (entries : Members) → Gives (Read l entries) (bind_tracks l entries)
unfolding bind_tracks
bind_tracks-Gives l empty = (λ b m. absurd (Memᴰ.not-nil m), refl)
bind_tracks-Gives l (member name value rest) =
    Gives-then (Read l (member name value rest)) (video_binding name (some value) l) _
      λ track bound.
        Gives-then (Read l (member name value rest)) (bind_tracks l rest)
          (λ tracks. ok (track ∷ tracks))
          λ tracks found.
            let (each, counted) = subst (Gives (Read l rest)) found (bind_tracks-Gives l rest) in
            let codable : IsCodable l track =
              subst (Gives (IsCodable l)) bound (video_binding-Gives name (some value) l) in
            (
              λ b m. elim (Memᴰ.cases_cons m) [
                | inl here ↦ subst (IsCodable l) (sym here) codable
                | inr there ↦ each b there
              ],
              omega (arith, counted),
            )
