-- ===== src/Session/Guard/Tests.antt =====
-- command-guard.ts at concrete inputs, and the theorems applied.
use package.ros_webrtc_bridge.Prelude.{
  ℕ, ◌<◌, ◌≤◌, ◌≡◌, ◌≢◌, refl, true, false, none, some, List, [], ◌∷◌, Text, codes, text_discrete,
  negsuc, arith,
}
use package.ros_webrtc_bridge.Prelude.Dict.{lookup, put, delete, keep, map_values}
use package.ros_webrtc_bridge.Runtime.Outcome.{ok, throw, at, Error}
use package.ros_webrtc_bridge.Runtime.Exec.{Ensures}
use package.ros_webrtc_bridge.Runtime.Decimal.{print, parse_from}
use package.ros_webrtc_bridge.Session.Validation.{identifier, sequence}
use package.ros_webrtc_bridge.Session.Guard.{
  CommandGuard, CommandRequest, CommandTicket, GuardLimits, HandleState, Host, Lease, Phase, init,
  open_session, open_handle, arm, prepare, reserve, revoke_session, close_handle, publish, owned,
  validate, authorize, id, id_text, is_busy, disarm,
}
use package.ros_webrtc_bridge.Session.Guard.Topic.{is_topic}
use package.ros_webrtc_bridge.Session.Guard.Invariant.{Inv, Safe, Honest, Extends-refl, Issued}
use package.ros_webrtc_bridge.Session.Guard.Registers.{revoke_session-Safe}
use package.ros_webrtc_bridge.Session.Guard.Parts.{Owns}
use package.ros_webrtc_bridge.Session.Guard.Commands.{
  Prepared, Reserved, prepare-Ensures, reserve-Ensures,
}
use package.ros_webrtc_bridge.Session.Guard.Leases.{Armed, arm-Ensures}
use package.ros_webrtc_bridge.Session.Guard.Opens.{
  Opened, HandleOpened, open_session-Ensures, open_handle-Ensures, close_handle-Ensures,
}
use package.ros_webrtc_bridge.Session.Guard.History.{GuardCall, run, step, run-init-Inv}
use package.ros_webrtc_bridge.Session.Guard.Order.{prepare-increasing, reserve-increasing}
use package.ros_webrtc_bridge.Session.Guard.Revoked.{Refused, revoke_session-refuses}
use package.ros_webrtc_bridge.Session.Guard.Grants.{
  Agrees, InOrder, arm-grants, prepare-grants, reserve-grants,
}

program : Unit {0}
unfolding init open_session open_handle arm prepare reserve publish revoke_session run step
    text_discrete owned validate authorize identifier sequence id lookup put delete keep map_values
    print parse_from is_topic is_busy disarm id_text
program = tt

abbrev limits : GuardLimits
limits = record { max_sessions = 2; max_handles = 4; lease_ms = 250 }

-- A hook that says yes, at a time.
abbrev yes_at : ℕ → Host
yes_at t = record { clock = at t; authorize = λ _ _ g. (ok true, g) }

abbrev fresh : CommandGuard
fresh = record {
  options = limits;
  prefix = codes "u";
  next_id = 0;
  last_time = 5;
  sessions = [];
  handles = [];
  closed = false;
}

starts_fresh : init limits (codes "u") (at 5) ≡ ok fresh
unfolding program
starts_fresh = refl

abbrev opening_calls : List (Host × GuardCall)
opening_calls =
    (yes_at 6, GuardCall.opens_session (codes "e1"))
    ∷ (yes_at 6, GuardCall.opens_handle (codes "u:1") (codes "/cmd_vel") none)
    ∷ (yes_at 10, GuardCall.arms (codes "u:1") (codes "u:2"))
    ∷ []

abbrev armed_guard : CommandGuard
armed_guard = run opening_calls fresh

-- The handle `u:2` of session `u:1` has the lease `u:3` until 260; arming again gives another.
arm_again :
    (arm (yes_at 20) (codes "u:1") (codes "u:2") armed_guard).0
    ≡ ok (record { id = codes "u:4"; expires_at = 270 })
unfolding program
arm_again = refl

abbrev command : Text → CommandRequest
command n = record {
  session_id = codes "u:1";
  epoch = codes "e1";
  handle = codes "u:2";
  lease_id = codes "u:3";
  seq = n;
}

abbrev ticket : ℕ → Text → CommandTicket
ticket n t = record { request = command t; seq = n; consumed = false }

prepare_first :
    (prepare (yes_at 20) (command (codes "7")) armed_guard).0 ≡ ok (ticket 7 (codes "7"))
unfolding program
prepare_first = refl

prepare_late :
    (prepare (yes_at 260) (command (codes "7")) armed_guard).0 ≡ throw Error.lease_expired
unfolding program
prepare_late = refl

-- A hook that revokes the session that it is asked about.
abbrev revoking_at : ℕ → Host
revoking_at t = record {
  clock = at t;
  authorize = λ i _ g. (ok true, revoke_session i.session_id g);
}

prepare_revoked :
    (prepare (revoking_at 20) (command (codes "7")) armed_guard).0 ≡ throw Error.invalid_owner
unfolding program
prepare_revoked = refl

yes_at-Honest : (t : ℕ) → Honest (yes_at t)
yes_at-Honest t = record { keeps = λ _ _ g v. record { inv = v; extends = Extends-refl g } }

revoking_at-Honest : (t : ℕ) → Honest (revoking_at t)
revoking_at-Honest t = record { keeps = λ i _ g v. revoke_session-Safe i.session_id g v }

armed_guard-Inv : Inv armed_guard
armed_guard-Inv =
    run-init-Inv limits (codes "u") (at 5) fresh opening_calls starts_fresh
      ((yes_at-Honest 6, tt), ((yes_at-Honest 6, tt), ((yes_at-Honest 10, tt), tt)))

run-init-Inv_example : Inv (run opening_calls fresh)
run-init-Inv_example =
    run-init-Inv limits (codes "u") (at 5) fresh opening_calls starts_fresh
      ((yes_at-Honest 6, tt), ((yes_at-Honest 6, tt), ((yes_at-Honest 10, tt), tt)))

arm-Ensures_example :
    Ensures
      (Safe armed_guard)
      (λ l g'. Safe armed_guard g' × Armed (yes_at 20) armed_guard g' (codes "u:1") (codes "u:2") l)
      (arm (yes_at 20) (codes "u:1") (codes "u:2") armed_guard)
arm-Ensures_example =
    arm-Ensures (yes_at 20) (yes_at-Honest 20) (codes "u:1") (codes "u:2") armed_guard
      armed_guard-Inv

open_handle-Ensures_example :
    Ensures
      (Safe armed_guard)
      (λ k g'.
        Safe armed_guard g'
        × HandleOpened (yes_at 20) armed_guard g' (codes "u:1") (codes "/arm") k)
      (open_handle (yes_at 20) (codes "u:1") (codes "/arm") (some 100) armed_guard)
open_handle-Ensures_example =
    open_handle-Ensures (yes_at 20) (yes_at-Honest 20) (codes "u:1") (codes "/arm") (some 100)
      armed_guard armed_guard-Inv

prepare-Ensures_example :
    Ensures
      (Safe armed_guard)
      (λ t g'. Safe armed_guard g' × Prepared (yes_at 20) armed_guard g' (command (codes "7")) t)
      (prepare (yes_at 20) (command (codes "7")) armed_guard)
prepare-Ensures_example =
    prepare-Ensures (yes_at 20) (yes_at-Honest 20) (command (codes "7")) armed_guard armed_guard-Inv

reserve-Ensures_example :
    Ensures
      (Safe armed_guard)
      (λ _ g'. Safe armed_guard g' × Reserved (yes_at 20) armed_guard g' (command (codes "7")) 7)
      (reserve (yes_at 20) (command (codes "7")) 7 armed_guard)
reserve-Ensures_example =
    reserve-Ensures (yes_at 20) (yes_at-Honest 20) (command (codes "7")) armed_guard armed_guard-Inv
      7

abbrev after_prepare : ℕ → Text → CommandGuard → CommandGuard
after_prepare t n g = (prepare (yes_at t) (command n) g).1

prepare_7 :
    prepare (yes_at 20) (command (codes "7")) armed_guard
    ≡ (ok (ticket 7 (codes "7")), after_prepare 20 (codes "7") armed_guard)
unfolding program
prepare_7 = refl

abbrev between : List (Host × GuardCall)
between = (yes_at 21, GuardCall.opens_session (codes "e2")) ∷ []

prepare_9 :
    prepare
      (yes_at 30)
      (command (codes "9"))
      (run between (after_prepare 20 (codes "7") armed_guard))
    ≡ (
      ok (ticket 9 (codes "9")),
      after_prepare 30 (codes "9") (run between (after_prepare 20 (codes "7") armed_guard)),
    )
unfolding program
prepare_9 = refl

prepare-increasing_example : 7 < 9
prepare-increasing_example =
    prepare-increasing (yes_at 20) (yes_at 30) (yes_at-Honest 20) (yes_at-Honest 30) between
      ((yes_at-Honest 21, tt), tt) (command (codes "7")) (command (codes "9")) refl armed_guard _ _
      armed_guard-Inv (ticket 7 (codes "7")) (ticket 9 (codes "9")) prepare_7 prepare_9

abbrev after_reserve : ℕ → ℕ → CommandGuard → CommandGuard
after_reserve t n g = (reserve (yes_at t) (command (codes "7")) n g).1

reserve_7 :
    reserve (yes_at 20) (command (codes "7")) 7 armed_guard
    ≡ (ok tt, after_reserve 20 7 armed_guard)
unfolding program
reserve_7 = refl

reserve_9 :
    reserve (yes_at 30) (command (codes "7")) 9 (run between (after_reserve 20 7 armed_guard))
    ≡ (ok tt, after_reserve 30 9 (run between (after_reserve 20 7 armed_guard)))
unfolding program
reserve_9 = refl

reserve-increasing_example : 7 < 9
reserve-increasing_example =
    reserve-increasing (yes_at 20) (yes_at 30) (yes_at-Honest 20) (yes_at-Honest 30) between
      ((yes_at-Honest 21, tt), tt) (command (codes "7")) (command (codes "7")) refl armed_guard _ _
      armed_guard-Inv 7 9 reserve_7 reserve_9

known_session : Issued armed_guard (codes "u:1")
unfolding program
known_session = (1, refl, omega arith)

revoke_session-refuses_example :
    let g' = run between (revoke_session (codes "u:1") armed_guard) in
    Refused (open_handle (yes_at 30) (codes "u:1") (codes "/arm") none g') g'
    × Refused (arm (yes_at 30) (codes "u:1") (codes "u:2") g') g'
    × Refused (close_handle (codes "u:1") (codes "u:2") g') g'
    × Refused (prepare (yes_at 30) (command (codes "9")) g') g'
    × Refused (reserve (yes_at 30) (command (codes "9")) 9 g') g'
revoke_session-refuses_example =
    revoke_session-refuses (codes "u:1") armed_guard between (yes_at 30) (codes "u:2")
      (codes "/arm") none (command (codes "9")) 9 armed_guard-Inv known_session
      ((yes_at-Honest 21, tt), tt) refl

abbrev lease_3 : Lease
lease_3 = record { id = codes "u:3"; expires_at = 260 }

abbrev state_2 : HandleState
state_2 = record {
  identity = record {
    session_id = codes "u:1";
    epoch = codes "e1";
    handle = codes "u:2";
    topic = codes "/cmd_vel";
  };
  lease_ms = 250;
  lease = some lease_3;
  received = negsuc 0;
  published = negsuc 0;
}

owner_2 : Owns armed_guard (codes "u:1") (codes "u:2") state_2
unfolding program
owner_2 = record { opened = refl; registered = refl; session = refl }

yes_20 : (p : Phase) → Agrees (yes_at 20) p armed_guard state_2 20
unfolding program
yes_20 p = record { says_yes = refl; reads = refl; later = omega arith; exact = omega arith }

in_order : (n : Text) → InOrder (command n) armed_guard state_2 20
in_order n = record {
  owns = owner_2;
  epoch = refl;
  lease = lease_3;
  leased = refl;
  named = refl;
  live = omega arith;
}

-- Both handles are the session's own, and one has a live lease.
own_leases :
    (k : Text) (u : HandleState) (l : Lease)
    → lookup k armed_guard.handles ≡ some u
    → u.topic ≡ codes "/cmd_vel"
    → u.session_id ≢ codes "u:1"
    → u.lease ≡ some l
    → l.expires_at ≤ 20
unfolding program
own_leases k u l found topic other has = ground arith

arm-grants_example :
    (arm (yes_at 20) (codes "u:1") (codes "u:2") armed_guard).0
    ≡ ok (record { id = codes "u:4"; expires_at = 270 })
unfolding program
arm-grants_example =
    arm-grants (yes_at 20) (codes "u:1") (codes "u:2") armed_guard state_2 20 armed_guard-Inv
      owner_2 (yes_20 Phase.arming) own_leases (omega arith)

sequence_7 : sequence (codes "7") ≡ ok 7
unfolding program
sequence_7 = refl

prepare-grants_example :
    (prepare (yes_at 20) (command (codes "7")) armed_guard).0 ≡ ok (ticket 7 (codes "7"))
prepare-grants_example =
    prepare-grants (yes_at 20) (command (codes "7")) armed_guard state_2 20 7 (in_order (codes "7"))
      (yes_20 Phase.receiving) sequence_7 (omega arith)

reserve-grants_example : (reserve (yes_at 20) (command (codes "7")) 7 armed_guard).0 ≡ ok tt
reserve-grants_example =
    reserve-grants (yes_at 20) (command (codes "7")) armed_guard state_2 20 7 (in_order (codes "7"))
      (yes_20 Phase.publishing) (omega arith)

open_session-Ensures_example :
    Ensures
      (Safe armed_guard)
      (λ k g'. Safe armed_guard g' × Opened armed_guard g' (codes "e2") k)
      (open_session (codes "e2") armed_guard)
open_session-Ensures_example = open_session-Ensures (codes "e2") armed_guard armed_guard-Inv

close_handle-Ensures_example :
    Ensures
      (Safe armed_guard)
      (λ _ g'.
        Safe armed_guard g'
        × (lookup (codes "u:2") g'.handles ≡ none)
        × ((s : HandleState) × Owns armed_guard (codes "u:1") (codes "u:2") s))
      (close_handle (codes "u:1") (codes "u:2") armed_guard)
close_handle-Ensures_example =
    close_handle-Ensures (codes "u:1") (codes "u:2") armed_guard armed_guard-Inv
