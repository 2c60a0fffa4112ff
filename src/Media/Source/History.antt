-- ===== src/Media/Source/History.antt =====
-- source.ts: every history of a source.
use package.ros_webrtc_bridge.Prelude.{
  ℕ, ◌≤◌, ◌≡◌, ◌≢◌, refl, ◌∙◌, true, false, not, ◌||◌, Option, none, some, is_some, [], ◌∷◌, ◌++◌,
  if_cases, length, Bool, arith,
}
use package.ros_webrtc_bridge.Config.Video.{VideoSettings}
use package.ros_webrtc_bridge.Router.Video.{idle, failed}
use package.ros_webrtc_bridge.Media.Renumber.{Packet}
use package.ros_webrtc_bridge.Media.Source.{
  Viewer, reported, VideoSource, idle_source, is_terminal, is_running, is_current, emit,
  request_keyframe, add, remove, grace_ended, start_expired, start_rejected, close, packet_from,
  failure_from, stop_settled,
}
use package.ros_webrtc_bridge.Media.Source.Holding.{
  holds, one_of, Single, emit-Fits, request_keyframe-Single, finish-Single,
}
use package.ros_webrtc_bridge.Media.Source.Restarts.{
  Unhurried, add-Single, settle-Single, deliver-Single,
}

-- A step is a call of the class, or what a timer, an encoder or a release does.
pub data Step (s : VideoSource) : VideoSource → Type 0 where
  added : (v : Viewer) (now : ℕ) → Step s (add v now s)
  removed : (v : Viewer) → Step s (remove v s)
  asked : (now : ℕ) → Step s (request_keyframe now s)
  closed : (now : ℕ) → Step s (close now s)
  unwatched : (now : ℕ) → Step s (grace_ended now s)
  expired : (now : ℕ) → Step s (start_expired now s)
  rejected : (now : ℕ) → Step s (start_rejected now s)
  sent : (e : ℕ) (p : Packet) → Step s (packet_from e p s)
  broke : (e now : ℕ) → Step s (failure_from e now s)
  stopped : Step s (stop_settled s)

pub data Reached (s : VideoSource) : VideoSource → Type 0 where
  here : Reached s s
  after : {t u : VideoSource} → Reached s t → Step t u → Reached s u

abbrev pub IsCalmStep : {s t : VideoSource} → Step s t → Type 0
IsCalmStep {s} (added v now) = Unhurried s
IsCalmStep _ = Unit

-- No viewer begins a start while an earlier one still waits for a release.
abbrev pub IsCalm : {s t : VideoSource} → Reached s t → Type 0
IsCalm here = Unit
IsCalm (after reached step) = IsCalm reached × IsCalmStep step

remove-Single : (v : Viewer) (s : VideoSource) → Single s → Single (remove v s)
unfolding remove
remove-Single v s h = if_cases Single _ (λ _. h) (λ _. h)

Step-Single : (s t : VideoSource) (step : Step s t) → IsCalmStep step → Single s → Single t
unfolding close grace_ended start_expired start_rejected packet_from failure_from stop_settled
Step-Single s _ (added v now) calm h = add-Single v now s calm h
Step-Single s _ (removed v) _ h = remove-Single v s h
Step-Single s _ (asked now) _ h = request_keyframe-Single now s h
Step-Single s _ (closed now) _ h = finish-Single idle now (record s { viewers = [] }) h
Step-Single s _ (unwatched now) _ h =
    if_cases Single s.grace_armed (λ _. finish-Single idle now (record s { grace_armed = false }) h)
      (λ _. h)
Step-Single s _ (expired now) _ h =
    if_cases Single s.start_armed (λ _. finish-Single failed now s h) (λ _. h)
Step-Single s _ (rejected now) _ h =
    finish-Single failed now (emit (reported ∷ []) s) (emit-Fits (reported ∷ []) refl h)
Step-Single s _ (sent e p) _ h =
    if_cases Single (is_current e s.source) (λ current. deliver-Single p s e current h) (λ _. h)
Step-Single s _ (broke e now) _ h =
    if_cases Single (is_current e s.source) (λ _. finish-Single failed now s h) (λ _. h)
Step-Single s _ stopped _ h = settle-Single s.release s refl h

Reached-Single : (s t : VideoSource) (reached : Reached s t) → IsCalm reached → Single s → Single t
Reached-Single s t here _ h = h
Reached-Single s t (after {t = u} reached step) (calm, last) h =
    Step-Single u t step last (Reached-Single s u reached calm h)

-- What a track holds, and what `running` says of it.
pub record Bounded (s : VideoSource) : Type 0 where
  pub held : holds [] s.effects ≡ one_of s.release ++ one_of s.source
  pub one : length (holds [] s.effects) ≤ 1
  pub counted : holds [] s.effects ≢ [] → is_running s ≡ true

Single-Bounded : (s : VideoSource) → Single s → Bounded s
unfolding is_running
Single-Bounded s h = record {
  held = h.exact;
  one = rw h.exact (short s.release s.source h.apart);
  counted = λ some_held. seen s.release s.source h.apart h.ended (λ e. some_held (h.exact ∙ e));
}
  where
    short : (r o : Option ℕ) → (is_some r ≡ true → o ≡ none) → length (one_of r ++ one_of o) ≤ 1
    short none none h = omega arith
    short none (some e) h = omega arith
    short (some d) none h = omega arith
    short (some d) (some e) h = absurd (cc (h refl))

    seen :
        (r o : Option ℕ)
        → (is_some r ≡ true → o ≡ none)
        → (is_terminal s.phase ≡ true → o ≡ none)
        → one_of r ++ one_of o ≢ []
        → (is_some r || not (is_terminal s.phase)) ≡ true
    seen (some d) o h k n = refl
    seen none none h k n = absurd (n refl)
    seen none (some e) h k n = ground (arith, k)

-- If no start is begun while an earlier one still waits for a release, then a track holds at most one
-- encoder after any calls, timers, packets, failures and releases in any order, whichever calls of
-- `create` throw: of the encoders that were
-- created and not yet released there is the one being released, or the current one, and no other; and
-- while one is held, the source counts as running, so that the limit of encoders counts it.
pub reached-Bounded :
    (settings : VideoSettings) (framerate : ℕ) (creates : ℕ → Bool) (s : VideoSource)
    (reached : Reached (idle_source settings framerate creates) s)
    → IsCalm reached
    → Bounded s
unfolding idle_source
reached-Bounded settings framerate creates s reached calm = Single-Bounded s (
    Reached-Single _ s reached calm (record {
      exact = refl;
      apart = λ _. refl;
      waits = λ w. absurd (omega (arith, w));
      alone = omega arith;
      ended = λ _. refl;
    }))
