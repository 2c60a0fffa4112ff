-- ===== src/Session/Guard/Parts.antt =====
-- command-guard.ts: what the private methods ensure (`owned`, `authorize`, `now`, `validate`).
use package.ros_webrtc_bridge.Prelude.{
  ℕ, ◌≤◌, ◌<◌, ◌≡◌, refl, sym, ap, ◌∙◌, Bool, true, false, not, some, ltb, ◌||◌, if_cases, Text,
  same_text, arith,
}
use mathlib.Core.Path.{subst}
use package.ros_webrtc_bridge.Prelude.Dict.{lookup}
use package.ros_webrtc_bridge.Runtime.Outcome.{
  Outcome, ok, throw, require, or_throw, Reading, max_safe_integer, at, below_zero, not_finite,
  unauthorized, guard_closed,
}
use package.ros_webrtc_bridge.Runtime.Exec.{
  continue, ensure, Ensures, returned, threw, Ensures-continue, Ensures-lift,
}
use package.ros_webrtc_bridge.Session.Guard.{
  CommandGuard, CommandIdentity, CommandRequest, HandleState, Lease, Host, Phase, Method,
  read_clock, now, authorize, owned, validate,
}
use package.ros_webrtc_bridge.Session.Guard.Invariant.{Inv, Safe, Honest, Extends-refl, Safe-trans}
use package.ros_webrtc_bridge.Session.Guard.Writes.{tick-Safe}

-- The handle is registered for the session, in a guard that is open.
pub record Owns (g : CommandGuard) (session_id handle : Text) (s : HandleState) : Type 0 where
  pub opened : g.closed ≡ false
  pub registered : lookup handle g.handles ≡ some s
  pub session : s.session_id ≡ session_id

module _ (E : CommandGuard → Type 0) where
  -- `owned` writes nothing.
  owned-Ensures :
      (session_id handle : Text) (g : CommandGuard)
      → E g
      → Ensures E (λ s g'. (g' ≡ g) × Owns g session_id handle s) (owned session_id handle g)
  unfolding owned continue
  owned-Ensures session_id handle g h =
      Ensures-lift (require (not g.closed) guard_closed) _ h λ _ opened.
        Ensures-lift (or_throw (lookup handle g.handles) _) _ h λ s found.
          Ensures-lift (require (same_text s.session_id session_id) _) _ h λ _ same. returned (
            refl,
            record { opened = ground arith; registered = ground arith; session = ground arith },
          )

  pub owned_rule :
      {B : Type 0} {Q : B → CommandGuard → Type 0} (session_id handle : Text) (g : CommandGuard)
      (f : HandleState → Method B)
      → E g
      → ((s : HandleState) → Owns g session_id handle s → Ensures E Q (f s g))
      → Ensures E Q (continue (owned session_id handle g) f)
  owned_rule {Q} session_id handle g f h k =
      Ensures-continue (owned-Ensures session_id handle g h)
        λ s g' (p, o). subst (λ x. Ensures E Q (f s x)) (sym p) (k s o)

  clock_rule :
      {B : Type 0} {Q : B → CommandGuard → Type 0} (r : Reading) (g : CommandGuard)
      (f : ℕ → Method B)
      → E g
      → ((t : ℕ)
          → r ≡ at t
          → g.last_time ≤ t
          → t ≤ max_safe_integer
          → Ensures E Q (f t (record g { last_time = t })))
      → Ensures E Q (continue (read_clock r g) f)
  unfolding read_clock continue
  clock_rule {Q} (at t) g f h k =
      if_cases (λ r. Ensures E Q (continue r f)) (ltb max_safe_integer t || ltb t g.last_time)
        (λ _. threw h) (λ good. k t refl (ground arith) (ground arith))
  clock_rule below_zero g f h k = threw h
  clock_rule not_finite g f h k = threw h

  pub now_rule :
      {B : Type 0} {Q : B → CommandGuard → Type 0} (host : Host) (g : CommandGuard)
      (f : ℕ → Method B)
      → E g
      → ((t : ℕ)
          → host.clock ≡ at t
          → g.last_time ≤ t
          → t ≤ max_safe_integer
          → Ensures E Q (f t (record g { last_time = t })))
      → Ensures E Q (continue (now host g) f)
  now_rule host g f h k = clock_rule host.clock g f h k

  -- What the hook leaves, whatever it answers.
  allowed_only :
      (r : Outcome Bool × CommandGuard)
      → E r.1
      → Ensures E (λ _ g'. r ≡ (ok true, g')) (continue r (λ allowed. ensure allowed unauthorized))
  unfolding continue
  allowed_only (throw e, g) h = threw h
  allowed_only (ok true, g) h = returned refl
  allowed_only (ok false, g) h = threw h

  pub authorize_rule :
      {B : Type 0} {Q : B → CommandGuard → Type 0} (host : Host) (i : CommandIdentity) (p : Phase)
      (g : CommandGuard) (f : Unit {0} → Method B)
      → E (host.authorize i p g).1
      → ((u : Unit {0}) (g' : CommandGuard)
          → host.authorize i p g ≡ (ok true, g')
          → Ensures E Q (f u g'))
      → Ensures E Q (continue (authorize host i p g) f)
  unfolding authorize
  authorize_rule host i p g f h k = Ensures-continue (allowed_only (host.authorize i p g) h) k

-- What `validate` finds: the handle is the session's, in its epoch, and its lease is the one named and
-- has not run out.
pub record Validates (g : CommandGuard) (request : CommandRequest) (s : HandleState) : Type 0 where
  pub owns : Owns g request.session_id request.handle s
  pub epoch : request.epoch ≡ s.epoch
  pub lease : Lease
  pub leased : s.lease ≡ some lease
  pub named : request.lease_id ≡ lease.id
  pub live : g.last_time < lease.expires_at

-- The hook has said yes to the identity, in the guard as the call found it, and has left `hook`; the
-- clock has given `time`; and `g'` is the guard that the hook left, at that time.
pub record Cleared (host : Host) (phase : Phase) (g : CommandGuard) (identity : CommandIdentity)
    (g' : CommandGuard) : Type 0 where
  pub hook : CommandGuard
  pub time : ℕ
  pub asked : host.authorize identity phase g ≡ (ok true, hook)
  pub read : host.clock ≡ at time
  pub left : g' ≡ record hook { last_time = time }

-- The hook has said yes to the identity of the handle as it stands now.
abbrev pub Allowed : Host → Phase → CommandGuard → CommandIdentity → Type 0
Allowed host phase g identity =
    (g' : CommandGuard) × (host.authorize identity phase g ≡ (ok true, g'))

module _ (host : Host) (honest : Honest host) where
  pub hook-Safe :
      (i : CommandIdentity) (p : Phase) (g g' : CommandGuard)
      → Inv g
      → host.authorize i p g ≡ (ok true, g')
      → Safe g g'
  hook-Safe i p g g' v e = subst (λ r. Safe g r.1) e (honest.keeps i p g v)

  -- The identity under a handle that was registered before is the same after.
  pub same_identity :
      (g g' : CommandGuard) (session_id handle : Text) (s s' : HandleState)
      → Inv g
      → Safe g g'
      → Owns g session_id handle s
      → Owns g' session_id handle s'
      → s'.identity ≡ s.identity
  same_identity g g' sid h s s' v safe o o' =
      let (t, found, a) =
        safe.extends.handles h s' (v.handles_issued h s o.registered) o'.registered in
      let same : t ≡ s = cc o.registered in a.identity ∙ ap (λ x. x.identity) same

  pub validate-Ensures :
      (request : CommandRequest) (phase : Phase) (g : CommandGuard)
      → Inv g
      → Ensures
          (Safe g)
          (λ s g'. Safe g g' × Validates g' request s × Cleared host phase g s.identity g')
          (validate host request phase g)
  unfolding validate continue
  validate-Ensures request phase g v = owned_rule (Safe g) sid h g _ self λ s₀ o₀.
      authorize_rule (Safe g) host s₀.identity phase g _ (honest.keeps s₀.identity phase g v)
        λ _ g₁ yes_.
          let safe = hook-Safe s₀.identity phase g g₁ v yes_ in
          owned_rule (Safe g) sid h g₁ _ safe λ s o.
            Ensures-lift (require (same_text request.epoch s.epoch) _) _ safe λ _ epoch.
              Ensures-lift (or_throw s.lease _) _ safe λ l leased.
                Ensures-lift (require (same_text request.lease_id l.id) _) _ safe λ _ named.
                  now_rule (Safe g) host g₁ _ safe λ t reads later _.
                    let moved = Safe-trans safe (tick-Safe g₁ t safe.inv later) in
                    Ensures-lift (require (ltb t l.expires_at) _) _ moved λ _ live. returned (
                      moved,
                      record {
                        owns = record {
                          opened = o.opened;
                          registered = o.registered;
                          session = o.session;
                        };
                        epoch = ground arith;
                        lease = l;
                        leased = ground arith;
                        named = ground arith;
                        live = ground arith;
                      },
                      record {
                        hook = g₁;
                        time = t;
                        asked =
                            subst (λ i. host.authorize i phase g ≡ (ok true, g₁))
                              (sym (same_identity g g₁ sid h s₀ s v safe o₀ o)) yes_;
                        read = reads;
                        left = refl;
                      },
                    )
    where
      sid : Text
      sid = request.session_id

      h : Text
      h = request.handle

      self : Safe g g
      self = record { inv = v; extends = Extends-refl g }
