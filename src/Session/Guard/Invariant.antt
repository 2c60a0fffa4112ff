-- ===== src/Session/Guard/Invariant.antt =====
-- command-guard.ts: what holds of the guard's registrations between calls, and how they may change.
use package.ros_webrtc_bridge.Prelude.{
  ℕ, ◌+◌, ◌≤◌, ◌≡◌, refl, ◌∙◌, true, some, is_some, length, Text, ◌≤ℤ◌, arith,
}
use mathlib.Core.List.{append_cancel_left}
use package.ros_webrtc_bridge.Prelude.Dict.{lookup, Distinct}
use package.ros_webrtc_bridge.Runtime.Decimal.{print_injective}
use package.ros_webrtc_bridge.Session.Guard.{
  CommandGuard, HandleState, Lease, Host, id_text, Phase, CommandIdentity,
}

-- The guard has given this identifier out.
abbrev pub Issued : CommandGuard → Text → Type 0
Issued g k = (n : ℕ) × (k ≡ id_text g.prefix n) × (n ≤ g.next_id)

-- Two counts give two identifiers.
pub id_text_injective : (prefix : Text) (m n : ℕ) → id_text prefix m ≡ id_text prefix n → m ≡ n
unfolding id_text
id_text_injective prefix m n e = print_injective m n (cc (append_cancel_left prefix _ _ e))

pub fresh_id : (g : CommandGuard) → Issued g (id_text g.prefix (g.next_id + 1)) → ⊥
fresh_id g (n, e, le) = absurd (omega (arith, id_text_injective g.prefix (g.next_id + 1) n e))

pub record Inv (g : CommandGuard) : Type 0 where
  -- A handle is registered under its own identifier, for a session that is open, with its epoch.
  pub keyed : (h : Text) (s : HandleState) → lookup h g.handles ≡ some s → s.handle ≡ h
  pub held :
      (h : Text) (s : HandleState)
      → lookup h g.handles ≡ some s
      → lookup s.session_id g.sessions ≡ some s.epoch
  -- One handle of a topic has a lease at most.
  pub exclusive :
      (h h' : Text) (s s' : HandleState)
      → lookup h g.handles ≡ some s
      → lookup h' g.handles ≡ some s'
      → s.topic ≡ s'.topic
      → is_some s.lease ≡ true
      → is_some s'.lease ≡ true
      → h ≡ h'
  pub handles_issued : (h : Text) (s : HandleState) → lookup h g.handles ≡ some s → Issued g h
  pub sessions_issued : (k e : Text) → lookup k g.sessions ≡ some e → Issued g k
  pub leases_issued :
      (h : Text) (s : HandleState) (l : Lease)
      → lookup h g.handles ≡ some s
      → s.lease ≡ some l
      → Issued g l.id
  pub handles_distinct : Distinct g.handles
  pub sessions_distinct : Distinct g.sessions
  pub handles_fit : length g.handles ≤ g.options.max_handles
  pub sessions_fit : length g.sessions ≤ g.options.max_sessions

-- A handle's state moves forward: its sequence numbers never fall.
pub record Advances (s s' : HandleState) : Type 0 where
  pub identity : s'.identity ≡ s.identity
  pub received : s.received ≤ℤ s'.received
  pub published : s.published ≤ℤ s'.published

-- How the guard may change: identifiers and time only grow, a closed guard stays closed, and nothing
-- that was once issued and is gone comes back.
pub record Extends (g g' : CommandGuard) : Type 0 where
  pub options : g'.options ≡ g.options
  pub prefix : g'.prefix ≡ g.prefix
  pub ids : g.next_id ≤ g'.next_id
  pub time : g.last_time ≤ g'.last_time
  pub shut : g.closed ≡ true → g'.closed ≡ true
  pub handles :
      (h : Text) (s' : HandleState)
      → Issued g h
      → lookup h g'.handles ≡ some s'
      → (s : HandleState) × (lookup h g.handles ≡ some s) × Advances s s'
  pub sessions :
      (k e : Text) → Issued g k → lookup k g'.sessions ≡ some e → lookup k g.sessions ≡ some e

pub record Safe (g g' : CommandGuard) : Type 0 where
  pub inv : Inv g'
  pub extends : Extends g g'

pub Advances-refl : (s : HandleState) → Advances s s
Advances-refl s = record { identity = refl; received = omega arith; published = omega arith }

Advances-trans : (s t u : HandleState) → Advances s t → Advances t u → Advances s u
Advances-trans s t u a b = record {
  identity = b.identity ∙ a.identity;
  received = omega (arith, a.received, b.received);
  published = omega (arith, a.published, b.published);
}

pub Extends-refl : (g : CommandGuard) → Extends g g
Extends-refl g = record {
  options = refl;
  prefix = refl;
  ids = omega arith;
  time = omega arith;
  shut = λ h. h;
  handles = λ h s _ e. (s, e, Advances-refl s);
  sessions = λ k e _ h. h;
}

pub Issued-Extends : {g g' : CommandGuard} (k : Text) → Extends g g' → Issued g k → Issued g' k
Issued-Extends k x (n, e, le) = (n, rw x.prefix e, omega (arith, x.ids))

pub Extends-trans : {f g h : CommandGuard} → Extends f g → Extends g h → Extends f h
Extends-trans {f} {g} {h} x y = record {
  options = y.options ∙ x.options;
  prefix = y.prefix ∙ x.prefix;
  ids = omega (arith, x.ids, y.ids);
  time = omega (arith, x.time, y.time);
  shut = λ c. y.shut (x.shut c);
  handles = λ k s' i e.
      let (s, found, b) = y.handles k s' (Issued-Extends k x i) e in
      let (s₀, found₀, a) = x.handles k s i found in (s₀, found₀, Advances-trans s₀ s s' a b);
  sessions = λ k e i h. x.sessions k e i (y.sessions k e (Issued-Extends k x i) h);
}

pub Safe-trans : {f g h : CommandGuard} → Safe f g → Safe g h → Safe f h
Safe-trans a b = record { inv = b.inv; extends = Extends-trans a.extends b.extends }

-- The hook does to the guard only what calls of the guard can do.
pub record Honest (host : Host) : Type 0 where
  pub keeps :
      (i : CommandIdentity) (p : Phase) (g : CommandGuard) → Inv g → Safe g (host.authorize i p g).1
