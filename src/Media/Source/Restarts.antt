-- ===== src/Media/Source/Restarts.antt =====
-- source.ts: a start, and the starts that wait, create one encoder.
use mathlib.Core.List.{append-nil}
use package.ros_webrtc_bridge.Prelude.{
  ℕ, zero, suc, ◌≤◌, ◌≡◌, refl, sym, ap, ◌∙◌, Bool, true, false, not, ◌||◌, Option, none, some,
  is_some, [], ◌∷◌, if◌then◌else◌, if_cases, map, arith,
}
use package.ros_webrtc_bridge.Router.Video.{starting, active}
use package.ros_webrtc_bridge.Media.Renumber.{Packet, renumber, restart}
use package.ros_webrtc_bridge.Media.Source.{
  Viewer, Effect, told, wrote, created, VideoSource, is_terminal, is_starting, is_active, is_empty,
  is_current, notify, create_source, resume, await_release, begin, add, add_viewer, deliver,
  resume_all, settle,
}
use package.ros_webrtc_bridge.Media.Source.Holding.{
  without, holds, one_of, Single, emit-Fits, request_keyframe-Single, holds_silent, holds-append,
  told_silent, wrote_silent,
}

-- What an encoder may be created on.
pub record Ready (s : VideoSource) : Type 0 where
  pub exact : holds [] s.effects ≡ []
  pub unreleased : s.release ≡ none
  pub sourceless : s.source ≡ none
  pub unwaited : s.waiting ≡ 0

-- What `create` does on a source that is wanted.
create_source-Single :
    (b : Bool) (s : VideoSource)
    → is_terminal s.phase ≡ false
    → Ready s
    → Single (create_source b s)
create_source-Single false s wanted h = record {
  exact = rw (h.unreleased, h.sourceless) h.exact;
  apart = λ _. h.sourceless;
  waits = λ w. absurd (omega (arith, w, h.unwaited));
  alone = omega (arith, h.unwaited);
  ended = λ _. h.sourceless;
}
create_source-Single true s wanted h = record {
  exact =
      holds-append [] s.effects (created s.created_count ∷ []) ∙ rw (h.exact, h.unreleased) refl;
  apart = λ r. absurd (cc (r, ap is_some h.unreleased));
  waits = λ w. absurd (omega (arith, w, h.unwaited));
  alone = omega (arith, h.unwaited);
  ended = λ terminal. absurd (cc (terminal, wanted));
}

pub resume-Single : (s : VideoSource) → Ready s → Single (resume s)
unfolding resume
resume-Single s h =
    if_cases Single (not (is_starting s.phase) || is_empty s.viewers)
      (λ _. record {
        exact = rw (h.unreleased, h.sourceless) h.exact;
        apart = λ _. h.sourceless;
        waits = λ w. absurd (omega (arith, w, h.unwaited));
        alone = omega (arith, h.unwaited);
        ended = λ _. h.sourceless;
      })
      (λ wanted.
        create_source-Single (s.creates s.created_count)
          (record s { numbering = restart s.numbering }) (ground arith)
          (record {
            exact = h.exact;
            unreleased = h.unreleased;
            sourceless = h.sourceless;
            unwaited = h.unwaited;
          }))

-- A start behind the announcement, which waits if there is a release.
pub await_release-Single :
    (o : Option ℕ) (s : VideoSource)
    → s.release ≡ o
    → s.source ≡ none
    → s.waiting ≡ 0
    → holds [] s.effects ≡ one_of s.release
    → Single (await_release o s)
unfolding await_release
await_release-Single none s settled sourceless unwaited exact = resume-Single s (record {
  exact = rw settled at exact;
  unreleased = settled;
  sourceless = sourceless;
  unwaited = unwaited;
})
await_release-Single (some e) s settled sourceless unwaited exact = record {
  exact = rw sourceless (exact ∙ sym (append-nil (one_of s.release)));
  apart = λ _. sourceless;
  waits = λ _. rw settled refl;
  alone = omega (arith, unwaited);
  ended = λ _. sourceless;
}

pub begin-Single : (s : VideoSource) → Single s → s.source ≡ none → s.waiting ≡ 0 → Single (begin s)
unfolding begin notify
begin-Single s h sourceless unwaited = await_release-Single s.release _ refl sourceless unwaited (
    holds-append [] s.effects (map (λ v. told v starting) s.viewers)
    ∙ holds_silent (holds [] s.effects) (map (λ v. told v starting) s.viewers)
        (told_silent starting s.viewers)
    ∙ h.exact
    ∙ rw sourceless (append-nil (one_of s.release)))

-- No start is begun while another waits.
abbrev pub Unhurried : VideoSource → Type 0
Unhurried s = is_terminal s.phase ≡ true → s.waiting ≡ 0

pub add-Single :
    (v : Viewer) (now : ℕ) (s : VideoSource) → Unhurried s → Single s → Single (add v now s)
unfolding add
add-Single v now s calm h =
    if_cases Single (is_terminal s.phase)
      (λ over.
        begin-Single (record s { viewers = add_viewer v s.viewers; grace_armed = false }) h
          (h.ended over) (calm over))
      (λ _.
        emit-Fits (told v s.phase ∷ []) refl
          (if_cases Single (is_active s.phase) (λ _. request_keyframe-Single now _ h) (λ _. h)))

pub resume_all-Single : (n : ℕ) (s : VideoSource) → n ≤ 1 → Ready s → Single (resume_all n s)
unfolding resume_all
resume_all-Single zero s h r = record {
  exact = rw (r.unreleased, r.sourceless) r.exact;
  apart = λ _. r.sourceless;
  waits = λ w. absurd (omega (arith, w, r.unwaited));
  alone = omega (arith, r.unwaited);
  ended = λ _. r.sourceless;
}
resume_all-Single (suc zero) s h r = resume-Single s r
resume_all-Single (suc (suc n)) s h r = absurd (omega (arith, h))

without_self : (e : ℕ) → without e (e ∷ []) ≡ []
without_self e = ground arith

pub settle-Single :
    (o : Option ℕ) (s : VideoSource) → s.release ≡ o → Single s → Single (settle o s)
unfolding settle
settle-Single none s settled h = h
settle-Single (some e) s settled h =
    let sourceless = h.apart (rw settled refl) in
    let only : holds [] s.effects ≡ e ∷ [] = rw (settled, sourceless) at h.exact in
    resume_all-Single s.waiting _ h.alone (record {
      exact =
          holds-append [] s.effects (Effect.released e ∷ []) ∙ ap (without e) only ∙ without_self e;
      unreleased = refl;
      sourceless = sourceless;
      unwaited = refl;
    })

pub active-Single :
    (s : VideoSource) (e : ℕ)
    → is_current e s.source ≡ true
    → Single s
    → Single (record s { start_armed = false; phase = active })
active-Single s e current h = record {
  exact = h.exact;
  apart = h.apart;
  waits = h.waits;
  alone = h.alone;
  ended = λ terminal. absurd (cc (terminal));
}

pub deliver-Single :
    (p : Packet) (s : VideoSource) (e : ℕ)
    → is_current e s.source ≡ true
    → Single s
    → Single (deliver p s)
unfolding deliver
deliver-Single p s e current h =
    let begun : VideoSource =
      if is_starting s.phase
      then notify (record s { start_armed = false; phase = active })
      else s in
    let b : Single begun =
      if_cases Single (is_starting s.phase)
        (λ _.
          emit-Fits (map (λ v. told v active) s.viewers) (told_silent active s.viewers)
            (active-Single s e current h))
        (λ _. h) in
    let (sent, numbering) = renumber s.framerate p begun.numbering in
    emit-Fits (map (λ viewer. wrote viewer sent) begun.viewers) (wrote_silent sent begun.viewers) b
