-- ===== src/Session/Guard/History.antt =====
-- command-guard.ts over histories of calls, each with the clock and the hook that it meets.
use package.ros_webrtc_bridge.Prelude.{
  ℕ, ◌≡◌, ap, Option, some, List, [], ◌∷◌, if_cases, Text, All, arith,
}
use package.ros_webrtc_bridge.Prelude.Dict.{lookup}
use package.ros_webrtc_bridge.Runtime.Outcome.{Outcome, ok, throw, Reading}
use package.ros_webrtc_bridge.Runtime.Exec.{Ensures, Ensures-continue, Ensures-state}
use package.ros_webrtc_bridge.Session.Guard.{
  CommandGuard, CommandRequest, CommandTicket, GuardLimits, Host, Method, init, open_session,
  open_handle, arm, prepare, publish, close_handle, revoke_session, close,
}
use package.ros_webrtc_bridge.Session.Guard.Invariant.{Inv, Safe, Honest, Extends-refl, Safe-trans}
use package.ros_webrtc_bridge.Session.Guard.Registers.{revoke_session-Safe, close-Safe}
use package.ros_webrtc_bridge.Session.Guard.Commands.{prepare-Ensures, reserve-Ensures}
use package.ros_webrtc_bridge.Session.Guard.Leases.{arm-Ensures}
use package.ros_webrtc_bridge.Session.Guard.Opens.{
  open_session-Ensures, open_handle-Ensures, close_handle-Ensures,
}

-- The public methods that write. A publish comes with the publisher's function.
pub data GuardCall : Type 0 where
  opens_session : Text → GuardCall
  opens_handle : Text → Text → Option ℕ → GuardCall
  arms closes_handle : Text → Text → GuardCall
  prepares : CommandRequest → GuardCall
  publishes : CommandTicket → Method (Unit {0}) → GuardCall
  revokes : Text → GuardCall
  closes : GuardCall

unfoldable pub step : Host → GuardCall → CommandGuard → CommandGuard
step host (opens_session epoch) g = (open_session epoch g).1
step host (opens_handle sid topic ms) g = (open_handle host sid topic ms g).1
step host (arms sid handle) g = (arm host sid handle g).1
step host (closes_handle sid handle) g = (close_handle sid handle g).1
step host (prepares request) g = (prepare host request g).1
step host (publishes ticket send) g = (publish host send ticket g).0.1
step host (revokes sid) g = revoke_session sid g
step host closes g = close g

unfoldable pub run : List (Host × GuardCall) → CommandGuard → CommandGuard
run [] g = g
run ((host, c) ∷ cs) g = run cs (step host c g)

-- The publisher's function, too, does to the guard only what calls of the guard can do.
pub record HonestSend (send : Method (Unit {0})) : Type 0 where
  pub keeps : (g : CommandGuard) → Inv g → Safe g (send g).1

abbrev pub HonestCall : Host × GuardCall → Type 0
HonestCall (host, publishes ticket send) = Honest host × HonestSend send
HonestCall (host, c) = Honest host × Unit {0}

publish-Safe :
    (host : Host) (send : Method (Unit {0})) (t : CommandTicket) (g : CommandGuard)
    → Honest host
    → HonestSend send
    → Inv g
    → Safe g (publish host send t g).0.1
unfolding publish
publish-Safe host send t g honest hs v =
    if_cases (λ (r : (Outcome (Unit {0}) × CommandGuard) × CommandTicket). Safe g r.0.1) t.consumed
      (λ _. record { inv = v; extends = Extends-refl g })
      λ _.
        Ensures-state
          (Ensures-continue {Q' = λ _ g'. Safe g g'}
            (reserve-Ensures host honest t.request g v t.seq)
            λ _ m (safe, _). after m safe (send m) (hs.keeps m safe.inv))
          λ _ _ safe. safe
  where
    after :
        (m : CommandGuard)
        → Safe g m
        → (r : Outcome (Unit {0}) × CommandGuard) → Safe m r.1
        → Ensures (Safe g) (λ _ g'. Safe g g') r
    after m safe (ok u, g') s = Ensures.returned (Safe-trans safe s)
    after m safe (throw e, g') s = Ensures.threw (Safe-trans safe s)

step-Safe :
    (host : Host) (c : GuardCall) (g : CommandGuard)
    → HonestCall (host, c)
    → Inv g
    → Safe g (step host c g)
unfolding step
step-Safe host (opens_session epoch) g h v =
    Ensures-state (open_session-Ensures epoch g v) (λ _ _ q. q.0)
step-Safe host (opens_handle sid topic ms) g h v =
    Ensures-state (open_handle-Ensures host h.0 sid topic ms g v) (λ _ _ q. q.0)
step-Safe host (arms sid handle) g h v =
    Ensures-state (arm-Ensures host h.0 sid handle g v) (λ _ _ q. q.0)
step-Safe host (closes_handle sid handle) g h v =
    Ensures-state (close_handle-Ensures sid handle g v) (λ _ _ q. q.0)
step-Safe host (prepares request) g h v =
    Ensures-state (prepare-Ensures host h.0 request g v) (λ _ _ q. q.0)
step-Safe host (publishes ticket send) g h v = publish-Safe host send ticket g h.0 h.1 v
step-Safe host (revokes sid) g h v = revoke_session-Safe sid g v
step-Safe host closes g h v = close-Safe g v

pub run-Safe :
    (cs : List (Host × GuardCall)) (g : CommandGuard)
    → All HonestCall cs
    → Inv g
    → Safe g (run cs g)
unfolding run
run-Safe [] g h v = record { inv = v; extends = Extends-refl g }
run-Safe ((host, c) ∷ cs) g h v =
    let first = step-Safe host c g h.0 v in
    Safe-trans first (run-Safe cs (step host c g) h.1 first.inv)

init-empty :
    (o : GuardLimits) (prefix : Text) (r : Reading) (g : CommandGuard)
    → init o prefix r ≡ ok g
    → (g.sessions ≡ []) × (g.handles ≡ []) × (g.options ≡ o) × (g.prefix ≡ prefix)
unfolding init
init-empty o prefix (Reading.at t) g e = ground arith
init-empty o prefix _ g e = ground arith

none_held : {V : Type 0} (m : List (Text × V)) (k : Text) (v : V) → m ≡ [] → lookup k m ≡ some v → ⊥
unfolding lookup
none_held m k v empty found = cc (ap (lookup k) empty)

-- A new guard has no registrations, and so satisfies the invariant.
pub init-Inv :
    (o : GuardLimits) (prefix : Text) (r : Reading) (g : CommandGuard)
    → init o prefix r ≡ ok g
    → Inv g
init-Inv o prefix r g e =
    let (ss, hs, _, _) = init-empty o prefix r g e in
    record {
      keyed = λ h s f. absurd (none_held g.handles h s hs f);
      held = λ h s f. absurd (none_held g.handles h s hs f);
      exclusive = λ h _ s _ f _ _ _ _. absurd (none_held g.handles h s hs f);
      handles_issued = λ h s f. absurd (none_held g.handles h s hs f);
      sessions_issued = λ k x f. absurd (none_held g.sessions k x ss f);
      leases_issued = λ h s _ f _. absurd (none_held g.handles h s hs f);
      handles_distinct = rw hs tt;
      sessions_distinct = rw ss tt;
      handles_fit = rw hs (omega arith);
      sessions_fit = rw ss (omega arith);
    }

-- After any history of calls on a new guard, throws included and with hooks that may call the guard
-- again, the registrations are consistent: every handle is registered under its own identifier for a
-- session that is open, every identifier in use has been given out, handles and sessions are within
-- their limits, and of the handles of one topic at most one has a lease. The hooks and the publishers'
-- functions do to the guard only what its calls can do.
pub run-init-Inv :
    (o : GuardLimits) (prefix : Text) (r : Reading) (g : CommandGuard)
    (cs : List (Host × GuardCall))
    → init o prefix r ≡ ok g
    → All HonestCall cs
    → Inv (run cs g)
run-init-Inv o prefix r g cs e h = (run-Safe cs g h (init-Inv o prefix r g e)).inv
