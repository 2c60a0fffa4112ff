-- ===== src/Media/Source/Holding.antt =====
-- source.ts: which encoders a track holds.
use package.ros_webrtc_bridge.Prelude.{
  ℕ, ◌≤◌, ◌<◌, ◌≡◌, refl, ◌∙◌, Bool, true, false, Option, none, some, is_some, List, [], ◌∷◌, ◌++◌,
  ◌==◌, if◌then◌else◌, if_cases, all, map, arith,
}
use package.ros_webrtc_bridge.Router.Video.{VideoState}
use package.ros_webrtc_bridge.Media.Renumber.{Packet}
use package.ros_webrtc_bridge.Media.Source.{
  Viewer, Effect, told, wrote, created, stopping, released, keyframe, reported, VideoSource,
  is_terminal, has_passed, notify, ask_encoder, request_keyframe, stop_encoder, finish,
}

abbrev pub without : ℕ → List ℕ → List ℕ
without e [] = []
without e (d ∷ ds) = if e == d then ds else d ∷ without e ds

-- The encoders that were created and not yet released, after the effects.
abbrev pub holds : List ℕ → List Effect → List ℕ
holds held [] = held
holds held (created e ∷ es) = holds (held ++ e ∷ []) es
holds held (released e ∷ es) = holds (without e held) es
holds held (_ ∷ es) = holds held es

abbrev pub is_silent : Effect → Bool
is_silent (created e) = false
is_silent (released e) = false
is_silent _ = true

pub holds-append :
    (held : List ℕ) (xs ys : List Effect) → holds held (xs ++ ys) ≡ holds (holds held xs) ys
holds-append held [] ys = refl
holds-append held (created e ∷ xs) ys = holds-append (held ++ e ∷ []) xs ys
holds-append held (released e ∷ xs) ys = holds-append (without e held) xs ys
holds-append held (told v p ∷ xs) ys = holds-append held xs ys
holds-append held (wrote v p ∷ xs) ys = holds-append held xs ys
holds-append held (stopping e ∷ xs) ys = holds-append held xs ys
holds-append held (keyframe e ∷ xs) ys = holds-append held xs ys
holds-append held (reported ∷ xs) ys = holds-append held xs ys

pub holds_silent :
    (held : List ℕ) (es : List Effect) → all is_silent es ≡ true → holds held es ≡ held
holds_silent held [] h = refl
holds_silent held (e ∷ es) h = ground (arith, holds_silent held es)

abbrev pub one_of : Option ℕ → List ℕ
one_of none = []
one_of (some e) = e ∷ []

-- The encoder that is being released, or the current one, is held, and no other; there are not both; a
-- start waits only for a release, and at most one does.
pub record Fits (effects : List Effect) (release source : Option ℕ) (waiting : ℕ)
    (phase : VideoState) : Type 0 where
  pub exact : holds [] effects ≡ one_of release ++ one_of source
  pub apart : is_some release ≡ true → source ≡ none
  pub waits : 0 < waiting → is_some release ≡ true
  pub alone : waiting ≤ 1
  pub ended : is_terminal phase ≡ true → source ≡ none

-- The other fields do not matter.
abbrev pub Single : VideoSource → Type 0
Single s = Fits s.effects s.release s.source s.waiting s.phase

pub emit-Fits :
    (es : List Effect) {effects : List Effect} {release source : Option ℕ} {waiting : ℕ}
    {phase : VideoState}
    → all is_silent es ≡ true
    → Fits effects release source waiting phase
    → Fits (effects ++ es) release source waiting phase
emit-Fits es {effects} silent h = record {
  exact = holds-append [] effects es ∙ holds_silent (holds [] effects) es silent ∙ h.exact;
  apart = h.apart;
  waits = h.waits;
  alone = h.alone;
  ended = h.ended;
}

pub told_silent :
    (p : VideoState) (vs : List Viewer) → all is_silent (map (λ v. told v p) vs) ≡ true
told_silent p [] = refl
told_silent p (v ∷ vs) = told_silent p vs

pub wrote_silent : (p : Packet) (vs : List Viewer) → all is_silent (map (λ v. wrote v p) vs) ≡ true
wrote_silent p [] = refl
wrote_silent p (v ∷ vs) = wrote_silent p vs

pub request_keyframe-Single :
    (now : ℕ) (s : VideoSource) → Single s → Single (request_keyframe now s)
unfolding request_keyframe
request_keyframe-Single now s h =
    if_cases Single (has_passed now s.last_keyframe_at s.settings.pli_min_interval_ms)
      (λ _. emit-Fits (ask_encoder s.source) (asked s.source) h) (λ _. h)
  where
    asked : (o : Option ℕ) → all is_silent (ask_encoder o) ≡ true
    asked none = refl
    asked (some e) = refl

-- The end of `finish`, on the encoder that was the current one.
pub stop_encoder-Single :
    (o : Option ℕ) (s : VideoSource)
    → s.source ≡ none
    → s.waiting ≤ 1
    → holds [] s.effects ≡ one_of s.release ++ one_of o
    → (is_some s.release ≡ true → o ≡ none)
    → (0 < s.waiting → is_some s.release ≡ true)
    → Single (stop_encoder o s)
stop_encoder-Single none s gone alone exact apart waits = record {
  exact = rw gone exact;
  apart = λ _. gone;
  waits = waits;
  alone = alone;
  ended = λ _. gone;
}
stop_encoder-Single (some e) s gone alone exact apart waits =
    let released_before : s.release ≡ none = unreleased s.release apart in
    record {
      exact = holds-append [] s.effects (stopping e ∷ []) ∙ rw gone (rw released_before at exact);
      apart = λ _. gone;
      waits = λ _. refl;
      alone = alone;
      ended = λ _. gone;
    }
  where
    unreleased : (o : Option ℕ) → (is_some o ≡ true → some e ≡ none) → o ≡ none
    unreleased none h = refl
    unreleased (some d) h = absurd (cc (h refl))

pub finish-Single :
    (phase : VideoState) (now : ℕ) (s : VideoSource) → Single s → Single (finish phase now s)
unfolding finish notify
finish-Single phase now s h =
    stop_encoder-Single s.source _ refl h.alone
      (holds-append [] s.effects (map (λ v. told v phase) s.viewers)
        ∙ holds_silent (holds [] s.effects) (map (λ v. told v phase) s.viewers)
            (told_silent phase s.viewers)
        ∙ h.exact)
      h.apart h.waits
