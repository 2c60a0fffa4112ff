-- ===== src/Session/Guard/Order.antt =====
-- command-guard.ts: a handle's sequence numbers rise for good, and a revoked session is out for good.
use package.ros_webrtc_bridge.Prelude.{ℕ, ◌<◌, ◌≡◌, some, List, Text, ◌≤ℤ◌, All, arith}
use mathlib.Core.Path.{subst}
use package.ros_webrtc_bridge.Prelude.Dict.{lookup}
use package.ros_webrtc_bridge.Runtime.Outcome.{ok}
use package.ros_webrtc_bridge.Runtime.Exec.{Ensures-ok}
use package.ros_webrtc_bridge.Session.Guard.{
  CommandGuard, CommandRequest, CommandTicket, HandleState, Host, prepare, reserve,
}
use package.ros_webrtc_bridge.Session.Guard.Invariant.{Inv, Safe, Honest, Safe-trans}
use package.ros_webrtc_bridge.Session.Guard.Commands.{prepare-Ensures, reserve-Ensures}
use package.ros_webrtc_bridge.Session.Guard.History.{GuardCall, HonestCall, run, run-Safe}

-- From a guard where the state of a handle is known to one that it has become: its numbers have not
-- fallen.
grown :
    (g g' : CommandGuard) (h : Text) (s s' : HandleState)
    → Inv g
    → Safe g g'
    → lookup h g.handles ≡ some s
    → lookup h g'.handles ≡ some s'
    → (s.received ≤ℤ s'.received) × (s.published ≤ℤ s'.published)
grown g g' h s s' v safe found found' =
    let (t, old, a) = safe.extends.handles h s' (v.handles_issued h s found) found' in
    let same : t ≡ s = cc in
    (
      subst (λ x. x.received ≤ℤ s'.received) same a.received,
      subst (λ x. x.published ≤ℤ s'.published) same a.published,
    )

module _ (host host' : Host) (honest : Honest host) (honest' : Honest host')
    (cs : List (Host × GuardCall)) (calls : All HonestCall cs) (request request' : CommandRequest)
    (same : request'.handle ≡ request.handle) (g g₁ g₂ : CommandGuard) (v : Inv g) where
  -- On a guard whose registrations are consistent, and with hooks and publishers' functions that do
  -- to it only what its calls can do: if two commands on one handle are received, the first before
  -- any history of calls and the second after it, the number of the second is the larger: no number
  -- is received twice, and none out of order.
  pub prepare-increasing :
      (t t' : CommandTicket)
      → prepare host request g ≡ (ok t, g₁)
      → prepare host' request' (run cs g₁) ≡ (ok t', g₂)
      → t.seq < t'.seq
  prepare-increasing t t' e e' =
      let (safe, p) = Ensures-ok t g₁ (prepare-Ensures host honest request g v) e in
      let between = run-Safe cs g₁ calls safe.inv in
      let (_, p') =
        Ensures-ok t' g₂ (prepare-Ensures host' honest' request' (run cs g₁) between.inv) e' in
      let rises =
        grown g₁ p'.passes.middle request.handle _ p'.passes.state safe.inv
          (Safe-trans between p'.passes.reached) p.recorded
          (rw same at p'.passes.validates.owns.registered) in
      omega (arith, rises.0, p'.newer)

  -- On a guard whose registrations are consistent, and with hooks and publishers' functions that do
  -- to it only what its calls can do: if two commands on one handle reach the publisher's function,
  -- the first before any history of calls and the second after it, the number of the second is the
  -- larger: no number is published twice, and none out of order.
  pub reserve-increasing :
      (seq seq' : ℕ)
      → reserve host request seq g ≡ (ok tt, g₁)
      → reserve host' request' seq' (run cs g₁) ≡ (ok tt, g₂)
      → seq < seq'
  reserve-increasing seq seq' e e' =
      let (safe, p) = Ensures-ok tt g₁ (reserve-Ensures host honest request g v seq) e in
      let between = run-Safe cs g₁ calls safe.inv in
      let (_, p') =
        Ensures-ok tt g₂ (reserve-Ensures host' honest' request' (run cs g₁) between.inv seq') e' in
      let rises =
        grown g₁ p'.passes.middle request.handle _ p'.passes.state safe.inv
          (Safe-trans between p'.passes.reached) p.recorded
          (rw same at p'.passes.validates.owns.registered) in
      omega (arith, rises.1, p'.newer)
