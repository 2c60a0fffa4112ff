-- ===== src/Session/Guard/Leases.antt =====
-- command-guard.ts: what `arm` ensures.
use package.ros_webrtc_bridge.Prelude.{
  ℕ, ◌+◌, ◌≤◌, ◌≡◌, Option, ◌≢◌, refl, sym, ap, ◌∙◌, true, false, not, some, List, [], ◌∷◌, leb,
  is_some, Text, text_discrete, arith,
}
use mathlib.Core.Path.{subst}
use package.ros_webrtc_bridge.Prelude.Dict.{
  lookup, put, values, map_values, lookup-put_self, lookup-put_ne, lookup-map_values,
}
use package.ros_webrtc_bridge.Runtime.Outcome.{ok, require, max_safe_integer}
use package.ros_webrtc_bridge.Runtime.Exec.{continue, Ensures, returned, Ensures-lift}
use package.ros_webrtc_bridge.Session.Guard.{
  CommandGuard, HandleState, Lease, Host, arming, is_live, is_busy, disarm, next, id, id_text, arm,
}
use package.ros_webrtc_bridge.Session.Guard.Invariant.{
  Inv, Issued, fresh_id, Advances, Safe, Honest, Extends-refl, Safe-trans, Issued-Extends,
}
use package.ros_webrtc_bridge.Session.Guard.Writes.{write-Safe, tick-Safe, next-Safe}
use package.ros_webrtc_bridge.Session.Guard.Registers.{
  disarm-Safe, read_disarmed, disarm_kept, disarmed,
}
use package.ros_webrtc_bridge.Session.Guard.Parts.{
  Owns, Cleared, owned_rule, now_rule, authorize_rule, hook-Safe, same_identity,
}

-- No other session has a live lease on the topic if the loop finds none.
not_busy :
    (topic sid : Text) (time : ℕ) (hs : List (Text × HandleState)) (k : Text) (t : HandleState)
    → is_busy topic sid time (values hs) ≡ false
    → lookup k hs ≡ some t
    → t.topic ≡ topic
    → t.session_id ≢ sid
    → is_live time t.lease ≡ false
unfolding is_busy lookup
not_busy topic sid time [] k t free e same other = absurd (cc)
not_busy topic sid time ((j, s) ∷ hs) k t free e same other =
    ground (arith, not_busy topic sid time hs k t)

over :
    (time : ℕ) (o : Option Lease) (l : Lease)
    → is_live time o ≡ false
    → o ≡ some l
    → l.expires_at ≤ time
over time o l gone has = ground arith

-- A lease that is granted. `middle` is the guard that the hook left when it allowed the handle's
-- identity, at the time that the clock gave.
pub record Armed (host : Host) (g g' : CommandGuard) (sid handle : Text) (lease : Lease)
    : Type 0 where
  pub middle : CommandGuard
  pub state : HandleState
  pub reached : Safe g middle
  pub owns : Owns middle sid handle state
  pub cleared : Cleared host arming g state.identity middle
  -- It runs from the time read for as long as the handle says, under an identifier never given before.
  pub term : lease.expires_at ≡ cleared.time + state.lease_ms
  pub new : ¬ Issued g lease.id
  pub recorded : lookup handle g'.handles ≡ some (record state { lease = some lease })
  -- Every lease of another session on the topic had run out, and nobody else has one now.
  pub unclaimed :
      (k : Text) (t : HandleState) (l : Lease)
      → lookup k middle.handles ≡ some t
      → t.topic ≡ state.topic
      → t.session_id ≢ sid
      → t.lease ≡ some l
      → l.expires_at ≤ cleared.time
  pub sole :
      (k : Text) (t : HandleState)
      → lookup k g'.handles ≡ some t
      → t.topic ≡ state.topic
      → is_some t.lease ≡ true
      → k ≡ handle

abbrev granted : CommandGuard → ℕ → Lease
granted m expires = record { id = id_text m.prefix (m.next_id + 1); expires_at = expires }

abbrev armed : CommandGuard → Text → HandleState → ℕ → CommandGuard
armed m handle s expires = record (next (disarmed m s.topic)) {
  handles =
      put handle (record s { lease = some (granted m expires) })
        (map_values (disarm s.topic) m.handles);
}

disarm-Advances-grant :
    (topic : Text) (s : HandleState) (l : Lease)
    → Advances (disarm topic s) (record s { lease = some l })
unfolding disarm
disarm-Advances-grant topic s l = record {
  identity = ground arith;
  received = ground arith;
  published = ground arith;
}

-- From the disarmed guard on: an identifier, and the lease under it.
module _ (m : CommandGuard) (handle : Text) (s : HandleState) (w : Inv m)
    (registered : lookup handle m.handles ≡ some s) (expires : ℕ) where
  none_left :
      (k : Text) (t : HandleState)
      → lookup k (disarmed m s.topic).handles ≡ some t
      → t.topic ≡ s.topic
      → is_some t.lease ≡ true
      → ⊥
  none_left k t e same has =
      let (u, _, d) = read_disarmed m s.topic w k t e in
      let lease : is_some (disarm s.topic u).lease ≡ true = cc in
      let (p, q) = disarm_kept s.topic u lease in q (ap (λ x. x.topic) (sym p ∙ sym d) ∙ same)

  id_of : (l : Lease) → some (granted m expires) ≡ some l → l.id ≡ id_text m.prefix (m.next_id + 1)
  id_of l has = ground arith

  grant-Safe : Safe m (armed m handle s expires)
  unfolding next
  grant-Safe =
      let first = disarm-Safe m s.topic w in
      let second = next-Safe (disarmed m s.topic) first.inv in
      Safe-trans first (
        Safe-trans second (
          write-Safe (next (disarmed m s.topic)) handle (disarm s.topic s)
            (record s { lease = some (granted m expires) }) second.inv
            (rw (lookup-map_values (disarm s.topic) handle m.handles, registered))
            (disarm-Advances-grant s.topic s (granted m expires))
            (λ l has. (m.next_id + 1, id_of l has, omega arith))
            (λ k t old topics lease _. absurd (none_left k t old topics lease))))

  armed_sole :
      (k : Text) (t : HandleState)
      → lookup k (armed m handle s expires).handles ≡ some t
      → t.topic ≡ s.topic
      → is_some t.lease ≡ true
      → k ≡ handle
  armed_sole k t e same has = elim (text_discrete handle k) [
    | yes p ↦ sym p
    | no p ↦ absurd (none_left k t (sym (lookup-put_ne k handle _ _ p) ∙ e) same has)
  ]

module _ (host : Host) (honest : Honest host) (sid handle : Text) (g : CommandGuard)
    (v : Inv g) where
  -- With a hook that does to the guard only what the guard's calls can do, on a guard whose
  -- registrations are consistent: `arm` keeps them consistent, whether it throws or returns. If it
  -- returns, the hook has allowed the identity of the handle, and in the guard that the hook left the
  -- caller owns the open handle; the lease runs from the time that the clock gave for the duration of the
  -- handle, under an identifier never given before; in the guard that the hook left, every lease of
  -- another session on the topic ended at or before that time; and afterwards no other handle of the
  -- topic has a lease.
  pub arm-Ensures :
      Ensures (Safe g) (λ l g'. Safe g g' × Armed host g g' sid handle l) (arm host sid handle g)
  unfolding arm continue id next
  arm-Ensures =
      owned_rule (Safe g) sid handle g _ (record { inv = v; extends = Extends-refl g })
        λ s₀ o₀.
          authorize_rule (Safe g) host s₀.identity arming g _ (honest.keeps s₀.identity arming g v)
            λ _ g₁ yes_.
              let safe = hook-Safe host honest s₀.identity arming g g₁ v yes_ in
              owned_rule (Safe g) sid handle g₁ _ safe λ s o.
                now_rule (Safe g) host g₁ _ safe λ t reads moved _.
                  let m : CommandGuard = record g₁ { last_time = t } in
                  let ticked = Safe-trans safe (tick-Safe g₁ t safe.inv moved) in
                  Ensures-lift (require (not (is_busy s.topic sid t (values g₁.handles))) _) _
                    ticked
                    λ _ free.
                      Ensures-lift (require (leb (t + s.lease_ms) max_safe_integer) _) _ ticked
                        λ _ bounded. returned (
                          Safe-trans ticked
                              (grant-Safe m handle s ticked.inv o.registered (t + s.lease_ms)),
                          record {
                            middle = m;
                            state = s;
                            reached = ticked;
                            owns = record {
                              opened = o.opened;
                              registered = o.registered;
                              session = o.session;
                            };
                            cleared = record {
                              hook = g₁;
                              time = t;
                              asked =
                                  subst (λ i. host.authorize i arming g ≡ (ok true, g₁))
                                    (sym
                                      (same_identity host honest g g₁ sid handle s₀ s v safe o₀ o))
                                    yes_;
                              read = reads;
                              left = refl;
                            };
                            term = refl;
                            new = λ i. fresh_id m (Issued-Extends _ ticked.extends i);
                            recorded = lookup-put_self handle _ _;
                            unclaimed = λ k u l found same other. over t u.lease l (
                                not_busy s.topic sid t g₁.handles k u (ground arith) found same
                                  other);
                            sole = armed_sole m handle s ticked.inv o.registered (t + s.lease_ms);
                          },
                        )
