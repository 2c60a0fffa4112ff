-- ===== src/Session/Guard/Revoked.antt =====
-- command-guard.ts: a revoked session is out for good.
use package.ros_webrtc_bridge.Prelude.{
  ℕ, ◌≡◌, refl, not, Option, none, List, Option-cases, Bool-cases, inl, inr, Text, text_discrete,
  All, arith,
}
use package.ros_webrtc_bridge.Prelude.Dict.{lookup, lookup-delete_self}
use package.ros_webrtc_bridge.Runtime.Outcome.{Error, Outcome, ok, throw, require}
use package.ros_webrtc_bridge.Runtime.Exec.{Exec, continue}
use package.ros_webrtc_bridge.Session.Guard.{
  CommandGuard, CommandRequest, HandleState, Host, Phase, arm, prepare, reserve, close_handle,
  open_handle, or_default, revoke_session, owned, validate, assert_open,
}
use package.ros_webrtc_bridge.Session.Validation.{positive_limit}
use package.ros_webrtc_bridge.Session.Guard.Invariant.{Inv, Issued, Issued-Extends}
use package.ros_webrtc_bridge.Session.Guard.Registers.{revoke_session-Safe}
use package.ros_webrtc_bridge.Session.Guard.Parts.{Owns}
use package.ros_webrtc_bridge.Session.Guard.History.{GuardCall, HonestCall, run, run-Safe}

-- A call of `owned` for a handle that the session does not own throws and writes nothing.
owned_refuses :
    (sid h : Text) (g : CommandGuard)
    → ((s : HandleState) → ¬ Owns g sid h s)
    → (e : Error) × (owned sid h g ≡ (throw e, g))
unfolding owned continue
owned_refuses sid h g nobody = elim (Bool-cases g.closed) [
  | inl shut ↦ (Error.guard_closed, simp shut)
  | inr opened ↦ elim (Option-cases (lookup h g.handles)) [
    | inl missing ↦ (Error.invalid_owner, simp (opened, missing))
    | inr (s, found) ↦ elim (text_discrete s.session_id sid) [
      | yes p ↦ absurd (nobody s (record { opened = opened; registered = found; session = p }))
      | no p ↦ (Error.invalid_owner, simp (opened, found) (ground arith))
    ]
  ]
]

-- The call throws and leaves the guard as it was.
abbrev pub Refused : {A : Type 0} → Outcome A × CommandGuard → CommandGuard → Type 0
Refused {A} r g = (e : Error) × (r ≡ (throw e, g))

sequence_throws :
    {A B : Type 0} (r : Outcome A) (f : A → Exec CommandGuard B) (g : CommandGuard)
    → ((a : A) → Refused (f a g) g)
    → Refused (continue (r, g) f) g
unfolding continue
sequence_throws (ok a) f g h = h a
sequence_throws (throw e) f g h = (e, refl)

-- Without an owner, what is based on `owned` is refused.
module _ (sid h : Text) (g : CommandGuard) (nobody : (s : HandleState) → ¬ Owns g sid h s) where
  owned_then :
      {B : Type 0} (f : HandleState → Exec CommandGuard B) → Refused (continue (owned sid h g) f) g
  unfolding continue
  owned_then f = let (e, thrown) = owned_refuses sid h g nobody in (e, rw (thrown, continue))

  arm_refuses : (host : Host) → Refused (arm host sid h g) g
  unfolding arm
  arm_refuses host = owned_then _

  close_handle_refuses : Refused (close_handle sid h g) g
  unfolding close_handle
  close_handle_refuses = owned_then _

module _ (request : CommandRequest) (g : CommandGuard)
    (nobody : (s : HandleState) → ¬ Owns g request.session_id request.handle s) where
  validate_refuses : (host : Host) (phase : Phase) → Refused (validate host request phase g) g
  unfolding validate
  validate_refuses host phase = owned_then request.session_id request.handle g nobody _

  validate_then :
      {B : Type 0} (host : Host) (phase : Phase) (f : HandleState → Exec CommandGuard B)
      → Refused (continue (validate host request phase g) f) g
  unfolding continue
  validate_then host phase f =
      let (e, thrown) = validate_refuses host phase in (e, rw (thrown, continue))

  reserve_refuses : (host : Host) (seq : ℕ) → Refused (reserve host request seq g) g
  unfolding reserve
  reserve_refuses host seq = validate_then host _ _

  prepare_refuses : (host : Host) → Refused (prepare host request g) g
  unfolding prepare
  prepare_refuses host = sequence_throws _ _ g (λ seq. validate_then host _ _)

open_handle_refuses :
    (host : Host) (sid topic : Text) (ms : Option ℕ) (g : CommandGuard)
    → lookup sid g.sessions ≡ none
    → Refused (open_handle host sid topic ms g) g
unfolding open_handle assert_open continue
open_handle_refuses host sid topic ms g gone =
    sequence_throws (require (not g.closed) Error.guard_closed) _ g λ _.
      sequence_throws (positive_limit (or_default ms g.options.lease_ms)) _ g
        λ _. (Error.unknown_session, rw gone)

-- After a session is revoked, and any history of calls after that, the session is unknown and nobody
-- owns a handle in its name.
revoked_stays :
    (sid : Text) (g : CommandGuard) (cs : List (Host × GuardCall))
    → Inv g
    → Issued g sid
    → All HonestCall cs
    → let g' = run cs (revoke_session sid g) in
      (lookup sid g'.sessions ≡ none) × ((h : Text) (s : HandleState) → ¬ Owns g' sid h s)
unfolding revoke_session
revoked_stays sid g cs v issued calls =
    let first = revoke_session-Safe sid g v in
    let rest = run-Safe cs (revoke_session sid g) calls first.inv in
    let gone = lookup-delete_self sid g.sessions in
    let out : lookup sid (run cs (revoke_session sid g)).sessions ≡ none =
      elim (Option-cases (lookup sid (run cs (revoke_session sid g)).sessions)) [
        | inl e ↦ e
        | inr (x, e) ↦
            absurd (cc (rest.extends.sessions sid x (Issued-Extends sid first.extends issued) e))
      ] in
    (out, λ h s o. cc (o.session, rest.inv.held h s o.registered))

-- On a guard whose registrations are consistent, and with hooks and publishers' functions that do to
-- it only what its calls can do: after a session that the guard had opened is revoked, and any
-- history of calls after that, every call in the session's name throws and writes nothing:
-- `openHandle`, `arm`, `closeHandle`, `prepare`, and the publish of a ticket that was prepared
-- before.
pub revoke_session-refuses :
    (sid : Text) (g : CommandGuard) (cs : List (Host × GuardCall)) (host : Host) (h topic : Text)
    (ms : Option ℕ) (request : CommandRequest) (seq : ℕ)
    → Inv g
    → Issued g sid
    → All HonestCall cs
    → request.session_id ≡ sid
    → let g' = run cs (revoke_session sid g) in
      Refused (open_handle host sid topic ms g') g'
      × Refused (arm host sid h g') g'
      × Refused (close_handle sid h g') g'
      × Refused (prepare host request g') g'
      × Refused (reserve host request seq g') g'
revoke_session-refuses sid g cs host h topic ms request seq v issued calls same =
    let g' = run cs (revoke_session sid g) in
    let (gone, nobody) = revoked_stays sid g cs v issued calls in
    let nobody' : (s : HandleState) → ¬ Owns g' request.session_id request.handle s =
      rw same (nobody request.handle) in
    (
      open_handle_refuses host sid topic ms g' gone,
      arm_refuses sid h g' (nobody h) host,
      close_handle_refuses sid h g' (nobody h),
      prepare_refuses request g' nobody' host,
      reserve_refuses request g' nobody' host seq,
    )
