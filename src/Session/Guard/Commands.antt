-- ===== src/Session/Guard/Commands.antt =====
-- command-guard.ts: what `prepare` and `publish` ensure.
use package.ros_webrtc_bridge.Prelude.{
  ℕ, ◌≡◌, refl, sym, ◌∙◌, false, not, some, Text, pos, ◌≤ℤ◌, leb_ℤ, arith,
}
use package.ros_webrtc_bridge.Prelude.Dict.{lookup, put, lookup-put_self}
use package.ros_webrtc_bridge.Runtime.Outcome.{ok, require}
use package.ros_webrtc_bridge.Runtime.Exec.{
  continue, Ensures, returned, Ensures-continue, Ensures-lift,
}
use package.ros_webrtc_bridge.Session.Validation.{sequence}
use package.ros_webrtc_bridge.Session.Guard.{
  CommandGuard, CommandRequest, CommandTicket, HandleState, Host, Phase, receiving, publishing,
  prepare, reserve,
}
use package.ros_webrtc_bridge.Session.Guard.Invariant.{
  Inv, Advances, Safe, Honest, Extends-refl, Safe-trans,
}
use package.ros_webrtc_bridge.Session.Guard.Writes.{write-Safe}
use package.ros_webrtc_bridge.Session.Guard.Parts.{Validates, Cleared, validate-Ensures}

-- The last write of a method that has validated a request: the state but for its sequence numbers.
advance-Safe :
    (g : CommandGuard) (h : Text) (s s' : HandleState)
    → Inv g
    → lookup h g.handles ≡ some s
    → Advances s s'
    → s'.lease ≡ s.lease
    → Safe g (record g { handles = put h s' g.handles })
advance-Safe g h s s' v found forward same =
    write-Safe g h s s' v found forward (λ l has. v.leases_issued h s l found (sym same ∙ has))
      (λ k t old topics lease lease'.
        v.exclusive k h t s old found (cc forward.identity) lease (cc))

-- What a request has met that passes. `middle` is the guard that the hook left when it allowed the
-- handle's identity, at the time that the clock gave; in it the request names a lease of its own handle,
-- and the lease ends after that time.
pub record Passes (host : Host) (phase : Phase) (g : CommandGuard) (request : CommandRequest)
    : Type 0 where
  pub middle : CommandGuard
  pub state : HandleState
  pub reached : Safe g middle
  pub validates : Validates middle request state
  pub cleared : Cleared host phase g state.identity middle

-- A ticket that is issued: its number is above every number received on the handle, and is recorded.
pub record Prepared (host : Host) (g g' : CommandGuard) (request : CommandRequest)
    (t : CommandTicket) : Type 0 where
  pub passes : Passes host receiving g request
  pub parsed : sequence request.seq ≡ ok t.seq
  pub single_use : t.consumed ≡ false
  pub about : t.request ≡ request
  pub newer : ¬ (pos t.seq ≤ℤ passes.state.received)
  pub recorded :
      lookup request.handle g'.handles ≡ some (record (passes.state) { received = pos t.seq })

-- A reservation of the right to publish.
pub record Reserved (host : Host) (g g' : CommandGuard) (request : CommandRequest) (seq : ℕ)
    : Type 0 where
  pub passes : Passes host publishing g request
  pub newer : ¬ (pos seq ≤ℤ passes.state.published)
  pub recorded :
      lookup request.handle g'.handles ≡ some (record (passes.state) { published = pos seq })

module _ (host : Host) (honest : Honest host) (request : CommandRequest) (g : CommandGuard)
    (v : Inv g) where
  -- With a hook that does to the guard only what the guard's calls can do, on a guard whose
  -- registrations are consistent: `prepare` keeps them consistent, whether it throws or returns. If it
  -- returns a ticket, the hook has allowed the identity of the handle, and in the guard that the hook
  -- left, at the time that the clock gave, the request names the owner, the epoch and the lease of a
  -- registered handle, and the lease ends after that time; the ticket's number is the one that the request's text stands for, is
  -- above every number received on the handle, and is what the handle now holds as received.
  pub prepare-Ensures :
      Ensures (Safe g) (λ t g'. Safe g g' × Prepared host g g' request t) (prepare host request g)
  unfolding prepare continue
  prepare-Ensures =
      Ensures-lift (sequence request.seq) _ (record { inv = v; extends = Extends-refl g })
        λ seq parsed.
          Ensures-continue (validate-Ensures host honest request receiving g v)
            λ s m (safe, valid, cleared).
              Ensures-lift (require (not (leb_ℤ (pos seq) s.received)) _) _ safe λ _ newer.
                returned (
                  Safe-trans safe (
                      advance-Safe m request.handle s (record s { received = pos seq }) safe.inv
                        valid.owns.registered
                        (record {
                          identity = refl;
                          received = ground arith;
                          published = omega arith;
                        })
                        refl),
                  record {
                    passes = record {
                      middle = m;
                      state = s;
                      reached = safe;
                      validates = valid;
                      cleared = cleared;
                    };
                    parsed = parsed;
                    single_use = refl;
                    about = refl;
                    newer = λ le. ground arith;
                    recorded =
                        lookup-put_self request.handle (record s { received = pos seq }) m.handles;
                  },
                )

  -- With a hook that does to the guard only what the guard's calls can do, on a guard whose
  -- registrations are consistent: what `publish` does before it calls the publisher keeps them
  -- consistent, whether it throws or returns. If it returns, the hook has allowed the identity of the
  -- handle, and in the guard that the hook left, at the time that the clock gave, the request names the
  -- owner, the epoch and the lease of a registered handle, and the lease ends after that time; the number is above
  -- every number published on the handle, and is what the handle now holds as published.
  pub reserve-Ensures :
      (seq : ℕ)
      → Ensures
          (Safe g)
          (λ _ g'. Safe g g' × Reserved host g g' request seq)
          (reserve host request seq g)
  unfolding reserve continue
  reserve-Ensures seq =
      Ensures-continue (validate-Ensures host honest request publishing g v)
        λ s m (safe, valid, cleared).
          Ensures-lift (require (not (leb_ℤ (pos seq) s.published)) _) _ safe λ _ newer. returned (
            Safe-trans safe (
                advance-Safe m request.handle s (record s { published = pos seq }) safe.inv
                  valid.owns.registered
                  (record { identity = refl; received = omega arith; published = ground arith })
                  refl),
            record {
              passes = record {
                middle = m;
                state = s;
                reached = safe;
                validates = valid;
                cleared = cleared;
              };
              newer = λ le. ground arith;
              recorded =
                  lookup-put_self request.handle (record s { published = pos seq }) m.handles;
            },
          )
