-- ===== src/Config/Video/Sources.antt =====
-- config/video.ts: a ROS topic feeds one source, and is not served as messages too.
use package.ros_webrtc_bridge.Prelude.{
  ◌≡◌, ◌≢◌, sym, ap, ◌∙◌, false, List, [], ◌∷◌, Text, arith, inl, inr,
}
use mathlib.Core.List.{Memᴰ}
use mathlib.Core.List.Memᴰ
use package.ros_webrtc_bridge.Runtime.Outcome.{ok}
use package.ros_webrtc_bridge.Config.{TopicBinding}
use package.ros_webrtc_bridge.Config.Video.{VideoBinding}
use package.ros_webrtc_bridge.Config.Video.Plane.{check_sources, check_exposed, topics_of}
use package.ros_webrtc_bridge.Router.Protocol.{includes}

-- No two tracks of the list have one topic.
abbrev pub Apart : List VideoBinding → Type 0
Apart [] = Unit
Apart (track ∷ rest) =
    ((b : VideoBinding) → Memᴰ b rest → track.ros_topic ≢ b.ros_topic) × Apart rest

-- What the list does not include is none of its elements.
includes-cons :
    (t k : Text) (rest : List Text)
    → includes (t ∷ rest) k ≡ false
    → (t ≢ k) × (includes rest k ≡ false)
includes-cons t k rest h = (ground arith, ground arith)

check_sources-cons :
    (track : VideoBinding) (rest : List VideoBinding) (sources : List Text)
    → check_sources (track ∷ rest) sources ≡ ok tt
    → (includes sources track.ros_topic ≡ false)
      × (check_sources rest (track.ros_topic ∷ sources) ≡ ok tt)
unfolding check_sources
check_sources-cons track rest sources h = (ground arith, ground arith)

pub check_sources-Apart :
    (tracks : List VideoBinding) (sources : List Text)
    → check_sources tracks sources ≡ ok tt
    → ((b : VideoBinding) → Memᴰ b tracks → includes sources b.ros_topic ≡ false) × Apart tracks
check_sources-Apart [] sources h = (λ b m. absurd (Memᴰ.not-nil m), tt)
check_sources-Apart (track ∷ rest) sources h =
    let (new, passed) = check_sources-cons track rest sources h in
    let (others, apart) = check_sources-Apart rest (track.ros_topic ∷ sources) passed in
    (
      λ b m. elim (Memᴰ.cases_cons m) [
        | inl here ↦ ap (λ t. includes sources t.ros_topic) here ∙ new
        | inr there ↦ (includes-cons track.ros_topic b.ros_topic sources (others b there)).1
      ],
      (λ b m. (includes-cons track.ros_topic b.ros_topic sources (others b m)).0, apart),
    )

check_exposed-cons :
    (exposed : List Text) (track : VideoBinding) (rest : List VideoBinding)
    → check_exposed exposed (track ∷ rest) ≡ ok tt
    → (includes exposed track.ros_topic ≡ false) × (check_exposed exposed rest ≡ ok tt)
unfolding check_exposed
check_exposed-cons exposed track rest h = (ground arith, ground arith)

unserved :
    (topics : List TopicBinding) (k : Text) (t : TopicBinding)
    → includes (topics_of topics) k ≡ false
    → Memᴰ t topics
    → t.ros_topic ≢ k
unserved [] k t h m = absurd (Memᴰ.not-nil m)
unserved (topic ∷ rest) k t h m =
    let (apart, none_more) = includes-cons topic.ros_topic k (topics_of rest) h in
    elim (Memᴰ.cases_cons m) [
      | inl here ↦ λ e. apart (ap (λ x. x.ros_topic) (sym here) ∙ e)
      | inr there ↦ unserved rest k t none_more there
    ]

pub check_exposed-apart :
    (topics : List TopicBinding) (tracks : List VideoBinding) (b : VideoBinding) (t : TopicBinding)
    → check_exposed (topics_of topics) tracks ≡ ok tt
    → Memᴰ b tracks
    → Memᴰ t topics
    → t.ros_topic ≢ b.ros_topic
check_exposed-apart topics [] b t h m n = absurd (Memᴰ.not-nil m)
check_exposed-apart topics (track ∷ rest) b t h m n =
    let (new, passed) = check_exposed-cons (topics_of topics) track rest h in
    elim (Memᴰ.cases_cons m) [
      | inl here ↦ λ e. unserved topics track.ros_topic t new n (e ∙ ap (λ x. x.ros_topic) here)
      | inr there ↦ check_exposed-apart topics rest b t passed there n
    ]
