-- ===== src/Session/Guard/Grants.antt =====
-- command-guard.ts: the calls that must succeed. A hook that says yes and leaves the guard alone, a clock
-- that does not go back, and a request that is in order.
use package.ros_webrtc_bridge.Prelude.{
  ℕ, ◌+◌, ◌≤◌, ◌<◌, ◌≡◌, ◌≢◌, refl, true, false, not, ◌&&◌, Option, none, some, List, [], ◌∷◌,
  text_discrete, ltb, leb, Text, same_text, pos, leb_ℤ, ◌≤ℤ◌, arith,
}
use package.ros_webrtc_bridge.Prelude.Dict.{lookup, Distinct, values}
use package.ros_webrtc_bridge.Session.Guard.Invariant.{Inv}
use package.ros_webrtc_bridge.Runtime.Outcome.{ok, at, max_safe_integer}
use package.ros_webrtc_bridge.Runtime.Exec.{continue}
use package.ros_webrtc_bridge.Session.Validation.{sequence}
use package.ros_webrtc_bridge.Session.Guard.{
  CommandGuard, CommandRequest, HandleState, Lease, Host, Phase, arming, receiving, publishing,
  is_live, is_busy, id_text, id, arm, validate, prepare, reserve, owned, read_clock, authorize,
}
use package.ros_webrtc_bridge.Session.Guard.Parts.{Owns}

-- What the call meets outside the guard.
pub record Agrees (host : Host) (phase : Phase) (g : CommandGuard) (s : HandleState) (t : ℕ)
    : Type 0 where
  pub says_yes : host.authorize s.identity phase g ≡ (ok true, g)
  pub reads : host.clock ≡ at t
  pub later : g.last_time ≤ t
  pub exact : t ≤ max_safe_integer

owned_grants :
    (sid h : Text) (g : CommandGuard) (s : HandleState) → Owns g sid h s → owned sid h g ≡ (ok s, g)
unfolding owned continue
owned_grants sid h g s o =
    let same : same_text s.session_id sid ≡ true = ground (arith, o.session) in
    simp (o.opened, o.registered, same)

clock_grants :
    (g : CommandGuard) (t : ℕ)
    → g.last_time ≤ t
    → t ≤ max_safe_integer
    → read_clock (at t) g ≡ (ok t, record g { last_time = t })
unfolding read_clock
clock_grants g t h k = ground arith

-- One handle of the loop.
head_over :
    (topic sid : Text) (time : ℕ) (s : HandleState) (o : Option Lease)
    → ((l : Lease) → s.topic ≡ topic → s.session_id ≢ sid → o ≡ some l → l.expires_at ≤ time)
    → (same_text s.topic topic && not (same_text s.session_id sid) && is_live time o) ≡ false
head_over topic sid time s none over = ground arith
head_over topic sid time s (some l) over = ground (arith, over l)

later_found :
    (k j : Text) (s t : HandleState) (hs : List (Text × HandleState))
    → lookup j hs ≡ none
    → lookup k hs ≡ some t
    → lookup k ((j, s) ∷ hs) ≡ some t
unfolding lookup
later_found k j s t hs fresh found = elim (text_discrete j k) [
  | yes p ↦ absurd (cc)
  | no p ↦ ground arith
]

-- If every lease of another session on the topic has run out, the loop of `arm` finds none.
run_out :
    (topic sid : Text) (time : ℕ) (hs : List (Text × HandleState))
    → Distinct hs
    → ((k : Text) (t : HandleState) (l : Lease)
        → lookup k hs ≡ some t
        → t.topic ≡ topic
        → t.session_id ≢ sid
        → t.lease ≡ some l
        → l.expires_at ≤ time)
    → is_busy topic sid time (values hs) ≡ false
unfolding is_busy lookup
run_out topic sid time [] d over = refl
run_out topic sid time ((j, s) ∷ hs) d over =
    let rest : is_busy topic sid time (values hs) ≡ false =
      run_out topic sid time hs d.1
        (λ k t l found. over k t l (later_found k j s t hs d.0 found)) in
    let here : lookup j ((j, s) ∷ hs) ≡ some s = ground arith in
    rw (head_over topic sid time s s.lease (λ l. over j s l here), is_busy) rest

-- On a guard whose registrations are consistent: if the caller owns the handle, the hook says yes and
-- leaves the guard alone, the clock gives an exact time that is not before the last one, every lease of
-- another session on the topic ends at or before that time, and the end of the new lease is an exact
-- number, then `arm` returns a lease with the next identifier, which runs from the time read for the
-- duration of the handle. A lease of the same session does not stand in the way.
pub arm-grants :
    (host : Host) (sid h : Text) (g : CommandGuard) (s : HandleState) (t : ℕ)
    → Inv g
    → Owns g sid h s
    → Agrees host arming g s t
    → ((k : Text) (u : HandleState) (l : Lease)
        → lookup k g.handles ≡ some u
        → u.topic ≡ s.topic
        → u.session_id ≢ sid
        → u.lease ≡ some l
        → l.expires_at ≤ t)
    → t + s.lease_ms ≤ max_safe_integer
    → (arm host sid h g).0
      ≡ ok (record { id = id_text g.prefix (g.next_id + 1); expires_at = t + s.lease_ms })
unfolding arm authorize continue id
arm-grants host sid h g s t v o a over fits =
    let bounded : leb (t + s.lease_ms) max_safe_integer ≡ true = ground arith in
    simp (
      owned_grants sid h g s o,
      a.says_yes,
      a.reads,
      clock_grants g t a.later a.exact,
      run_out s.topic sid t g.handles v.handles_distinct over,
      bounded,
    )

-- A request in order: it names the epoch and the lease of its handle, and the lease has not run out.
pub record InOrder (request : CommandRequest) (g : CommandGuard) (s : HandleState) (t : ℕ)
    : Type 0 where
  pub owns : Owns g request.session_id request.handle s
  pub epoch : request.epoch ≡ s.epoch
  pub lease : Lease
  pub leased : s.lease ≡ some lease
  pub named : request.lease_id ≡ lease.id
  pub live : t < lease.expires_at

validate_grants :
    (host : Host) (request : CommandRequest) (phase : Phase) (g : CommandGuard) (s : HandleState)
    (t : ℕ)
    → InOrder request g s t
    → Agrees host phase g s t
    → validate host request phase g ≡ (ok s, record g { last_time = t })
unfolding validate authorize continue
validate_grants host request phase g s t i a =
    let epochs : same_text request.epoch s.epoch ≡ true = ground (arith, i.epoch) in
    let leases : same_text request.lease_id i.lease.id ≡ true = ground (arith, i.named) in
    let live : ltb t i.lease.expires_at ≡ true = ground (arith, i.live) in
    simp (
      owned_grants request.session_id request.handle g s i.owns,
      a.says_yes,
      a.reads,
      epochs,
      i.leased,
      leases,
      clock_grants g t a.later a.exact,
      live,
    )

-- If a request names the owner, the epoch and the lease of its handle, the hook says yes and leaves
-- the guard alone, the clock gives an exact time that is not before the last one and is within the
-- lease, and the request's text is a number above all received on the handle, then `prepare` returns a
-- ticket with that number.
pub prepare-grants :
    (host : Host) (request : CommandRequest) (g : CommandGuard) (s : HandleState) (t seq : ℕ)
    → InOrder request g s t
    → Agrees host receiving g s t
    → sequence request.seq ≡ ok seq
    → ¬ (pos seq ≤ℤ s.received)
    → (prepare host request g).0 ≡ ok (record { request = request; seq = seq; consumed = false })
unfolding prepare continue
prepare-grants host request g s t seq i a parsed newer =
    let fresh : leb_ℤ (pos seq) s.received ≡ false = ground arith in
    simp (parsed, validate_grants host request receiving g s t i a, fresh)

-- If the request of a ticket names the owner, the epoch and the lease of its handle, the hook says yes
-- and leaves the guard alone, the clock gives an exact time that is not before the last one and is
-- within the lease, and the ticket's number is above all published on the handle, then `publish` goes
-- on to call the publisher.
pub reserve-grants :
    (host : Host) (request : CommandRequest) (g : CommandGuard) (s : HandleState) (t seq : ℕ)
    → InOrder request g s t
    → Agrees host publishing g s t
    → ¬ (pos seq ≤ℤ s.published)
    → (reserve host request seq g).0 ≡ ok tt
unfolding reserve continue
reserve-grants host request g s t seq i a newer =
    let fresh : leb_ℤ (pos seq) s.published ≡ false = ground arith in
    simp (validate_grants host request publishing g s t i a, fresh)
