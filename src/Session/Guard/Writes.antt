-- ===== src/Session/Guard/Writes.antt =====
-- command-guard.ts: each single write that the methods make keeps the invariant.
use package.ros_webrtc_bridge.Prelude.{
  ℕ, ◌≤◌, ◌≡◌, refl, sym, ap, ◌∙◌, true, some, is_some, Text, ◌⊎◌, inl, inr, arith,
}
use package.ros_webrtc_bridge.Prelude.Dict.{lookup, put, lookup-put, put-Distinct, length-put_old}
use package.ros_webrtc_bridge.Session.Guard.{CommandGuard, HandleState, Lease, next}
use package.ros_webrtc_bridge.Session.Guard.Invariant.{Issued, Inv, Advances, Safe, Advances-refl}

-- The clock moves on.
pub tick-Safe :
    (g : CommandGuard) (t : ℕ) → Inv g → g.last_time ≤ t → Safe g (record g { last_time = t })
tick-Safe g t v h = record {
  inv = record {
    keyed = v.keyed;
    held = v.held;
    exclusive = v.exclusive;
    handles_issued = v.handles_issued;
    sessions_issued = v.sessions_issued;
    leases_issued = v.leases_issued;
    handles_distinct = v.handles_distinct;
    sessions_distinct = v.sessions_distinct;
    handles_fit = v.handles_fit;
    sessions_fit = v.sessions_fit;
  };
  extends = record {
    options = refl;
    prefix = refl;
    ids = omega arith;
    time = h;
    shut = λ c. c;
    handles = λ k s _ e. (s, e, Advances-refl s);
    sessions = λ k e _ h. h;
  };
}

pub later : (g : CommandGuard) (k : Text) → Issued g k → Issued (next g) k
unfolding next
later g k (n, e, le) = (n, e, omega arith)

-- An identifier is given out.
pub next-Safe : (g : CommandGuard) → Inv g → Safe g (next g)
unfolding next
next-Safe g v = record {
  inv = record {
    keyed = v.keyed;
    held = v.held;
    exclusive = v.exclusive;
    handles_issued = λ h s e. later g h (v.handles_issued h s e);
    sessions_issued = λ k e h. later g k (v.sessions_issued k e h);
    leases_issued = λ h s l e f. later g l.id (v.leases_issued h s l e f);
    handles_distinct = v.handles_distinct;
    sessions_distinct = v.sessions_distinct;
    handles_fit = v.handles_fit;
    sessions_fit = v.sessions_fit;
  };
  extends = record {
    options = refl;
    prefix = refl;
    ids = omega arith;
    time = omega arith;
    shut = λ c. c;
    handles = λ k s _ e. (s, e, Advances-refl s);
    sessions = λ k e _ h. h;
  };
}

-- A registered handle's state is written. The last two premises are about a lease that it then has.
module _ (g : CommandGuard) (h : Text) (s s' : HandleState) (v : Inv g)
    (found : lookup h g.handles ≡ some s) (forward : Advances s s')
    (lease_issued : (l : Lease) → s'.lease ≡ some l → Issued g l.id)
    (alone : (k : Text) (t : HandleState)
      → lookup k g.handles ≡ some t
      → t.topic ≡ s'.topic
      → is_some t.lease ≡ true
      → is_some s'.lease ≡ true
      → k ≡ h) where
  abbrev written : CommandGuard
  written = record g { handles = put h s' g.handles }

  -- What is read after the write: the new state, or an old one under another key.
  read_back :
      (k : Text) (t : HandleState)
      → lookup k written.handles ≡ some t
      → ((k ≡ h) × (t ≡ s')) ⊎ (lookup k g.handles ≡ some t)
  read_back k t e = ground (arith, lookup-put k h s' g.handles)

  -- What holds of the new state and of the old ones holds of all that is read.
  transfer :
      (P : Text → HandleState → Type 0)
      → P h s'
      → ((k : Text) (t : HandleState) → lookup k g.handles ≡ some t → P k t)
      → (k : Text) (t : HandleState) → lookup k written.handles ≡ some t
      → P k t
  transfer P new old k t e = elim (read_back k t e) [
    | inl (p, q) ↦ rw (p, q) new
    | inr f ↦ old k t f
  ]

  abbrev Apart : Text → HandleState → Text → HandleState → Type 0
  Apart k t k' t' = t.topic ≡ t'.topic → is_some t.lease ≡ true → is_some t'.lease ≡ true → k ≡ k'

  written_exclusive :
      (k k' : Text) (t t' : HandleState)
      → lookup k written.handles ≡ some t
      → lookup k' written.handles ≡ some t'
      → Apart k t k' t'
  written_exclusive k k' t t' e e' =
      transfer (λ a x. Apart a x k' t')
        (transfer (λ a x. Apart h s' a x) (λ _ _ _. refl)
          (λ a x f same l m. sym (alone a x f (sym same) m l)) k' t' e')
        (λ a x f.
          transfer (λ b y. Apart a x b y) (alone a x f) (λ b y f'. v.exclusive a b x y f f') k' t'
            e')
        k t e

  pub write-Safe : Safe g written
  write-Safe = record {
    inv = record {
      keyed =
          transfer (λ k t. t.handle ≡ k) (ap (λ i. i.handle) forward.identity ∙ v.keyed h s found)
            v.keyed;
      held =
          transfer (λ k t. lookup t.session_id g.sessions ≡ some t.epoch)
            (rw forward.identity (v.held h s found)) v.held;
      exclusive = written_exclusive;
      handles_issued = transfer (λ k t. Issued g k) (v.handles_issued h s found) v.handles_issued;
      sessions_issued = v.sessions_issued;
      leases_issued = λ k t l e f.
          transfer (λ a x. (m : Lease) → x.lease ≡ some m → Issued g m.id) lease_issued
            (λ a x old m. v.leases_issued a x m old) k t e l f;
      handles_distinct = put-Distinct h s' g.handles v.handles_distinct;
      sessions_distinct = v.sessions_distinct;
      handles_fit = omega (arith, length-put_old h s' s g.handles found, v.handles_fit);
      sessions_fit = v.sessions_fit;
    };
    extends = record {
      options = refl;
      prefix = refl;
      ids = omega arith;
      time = omega arith;
      shut = λ c. c;
      handles = λ k t _ e. elim (read_back k t e) [
        | inl (p, q) ↦ (s, rw p found, rw q forward)
        | inr f ↦ (t, f, Advances-refl t)
      ];
      sessions = λ k e _ f. f;
    };
  }
