-- ===== src/Session/Guard/Additions.antt =====
-- command-guard.ts: a registration under a fresh identifier keeps the invariant.
use package.ros_webrtc_bridge.Prelude.{
  ◌+◌, ◌<◌, ◌≡◌, refl, sym, ◌∙◌, true, none, some, is_some, length, Text, text_discrete, inl, inr,
  Option-cases, arith,
}
use package.ros_webrtc_bridge.Prelude.Dict.{
  lookup, put, lookup-put_ne, lookup-put, put-Distinct, length-put_new,
}
use package.ros_webrtc_bridge.Session.Guard.{CommandGuard, HandleState, Lease, id_text, next}
use package.ros_webrtc_bridge.Session.Guard.Invariant.{
  Issued, fresh_id, Inv, Extends, Safe, Advances-refl, Extends-trans, Issued-Extends,
}
use package.ros_webrtc_bridge.Session.Guard.Writes.{later, next-Safe}

-- The guard that has given out one identifier more, and what is registered under it.
module _ (g : CommandGuard) (v : Inv g) where
  -- The identifier to be given out is registered nowhere.
  pub fresh_handle : lookup (id_text g.prefix (g.next_id + 1)) g.handles ≡ none
  fresh_handle = elim (Option-cases (lookup (id_text g.prefix (g.next_id + 1)) g.handles)) [
    | inl e ↦ e
    | inr (s, e) ↦ absurd (fresh_id g (v.handles_issued _ s e))
  ]

  pub fresh_session : lookup (id_text g.prefix (g.next_id + 1)) g.sessions ≡ none
  fresh_session = elim (Option-cases (lookup (id_text g.prefix (g.next_id + 1)) g.sessions)) [
    | inl e ↦ e
    | inr (s, e) ↦ absurd (fresh_id g (v.sessions_issued _ s e))
  ]

  -- The last lines of `openSession`.
  pub add_session-Safe :
      (epoch : Text)
      → length g.sessions < g.options.max_sessions
      → Safe g
          (record (next g) { sessions = put (id_text g.prefix (g.next_id + 1)) epoch g.sessions })
  unfolding next
  add_session-Safe epoch room = record {
    inv = record {
      keyed = v.keyed;
      held = λ h s f.
          ground (arith, v.held h s, fresh_session, lookup-put s.session_id k epoch g.sessions);
      exclusive = v.exclusive;
      handles_issued = λ h s f. later g h (v.handles_issued h s f);
      sessions_issued = λ j e f. elim (text_discrete k j) [
        | yes p ↦ (g.next_id + 1, sym p, omega arith)
        | no p ↦ later g j (v.sessions_issued j e (sym (lookup-put_ne j k epoch g.sessions p) ∙ f))
      ];
      leases_issued = λ h s l f e. later g l.id (v.leases_issued h s l f e);
      handles_distinct = v.handles_distinct;
      sessions_distinct = put-Distinct k epoch g.sessions v.sessions_distinct;
      handles_fit = v.handles_fit;
      sessions_fit = omega (arith, length-put_new k epoch g.sessions fresh_session);
    };
    extends = record {
      options = refl;
      prefix = refl;
      ids = omega arith;
      time = omega arith;
      shut = λ c. c;
      handles = λ h s _ e. (s, e, Advances-refl s);
      sessions = λ j e i f. elim (text_discrete k j) [
        | yes p ↦ absurd (fresh_id g (rw p i))
        | no p ↦ sym (lookup-put_ne j k epoch g.sessions p) ∙ f
      ];
    };
  }
    where
      k : Text
      k = id_text g.prefix (g.next_id + 1)

-- The last lines of `openHandle`: `g₀` is the guard before the identifier was given out, and `g` the
-- guard that the hook has left.
module _ (g₀ g : CommandGuard) (s : HandleState) (v : Inv g) (extends : Extends (next g₀) g)
    (numbered : s.handle ≡ id_text g₀.prefix (g₀.next_id + 1))
    (absent : lookup s.handle g₀.handles ≡ none)
    (open_session : lookup s.session_id g.sessions ≡ some s.epoch) (unarmed : s.lease ≡ none)
    (room : length g.handles < g.options.max_handles) where
  earlier_id : Issued (next g₀) s.handle
  unfolding next
  earlier_id = (g₀.next_id + 1, numbered, omega arith)

  still_absent : lookup s.handle g.handles ≡ none
  unfolding next
  still_absent = elim (Option-cases (lookup s.handle g.handles)) [
    | inl e ↦ e
    | inr (t, e) ↦ let (u, found, _) = extends.handles s.handle t earlier_id e in absurd (cc)
  ]

  abbrev added : CommandGuard
  added = record g { handles = put s.handle s g.handles }

  read_added :
      (P : Text → HandleState → Type 0)
      → P s.handle s
      → ((k : Text) (t : HandleState) → lookup k g.handles ≡ some t → P k t)
      → (k : Text) (t : HandleState) → lookup k added.handles ≡ some t
      → P k t
  read_added P new old k t e = elim (text_discrete s.handle k) [
    | yes p ↦
        let same : t ≡ s = ground (arith, lookup-put k s.handle s g.handles) in rw (same, ← p) new
    | no p ↦ old k t (sym (lookup-put_ne k s.handle s g.handles p) ∙ e)
  ]

  abbrev Apart : Text → HandleState → Text → HandleState → Type 0
  Apart k t k' t' = t.topic ≡ t'.topic → is_some t.lease ≡ true → is_some t'.lease ≡ true → k ≡ k'

  pub add_handle-Inv : Inv added
  add_handle-Inv = record {
    keyed = read_added (λ k t. t.handle ≡ k) refl v.keyed;
    held = read_added (λ k t. lookup t.session_id g.sessions ≡ some t.epoch) open_session v.held;
    exclusive = λ k k' t t' e e'.
        read_added (λ a x. Apart a x k' t') (λ _ l _. absurd (cc))
          (λ a x f.
            read_added (λ b y. Apart a x b y) (λ _ _ l. absurd (cc))
              (λ b y f'. v.exclusive a b x y f f') k' t' e')
          k t e;
    handles_issued =
        read_added (λ k t. Issued g k) (Issued-Extends s.handle extends earlier_id)
          v.handles_issued;
    sessions_issued = v.sessions_issued;
    leases_issued = λ k t l e f.
        read_added (λ a x. (m : Lease) → x.lease ≡ some m → Issued g m.id) (λ m has. absurd (cc))
          (λ a x old m. v.leases_issued a x m old) k t e l f;
    handles_distinct = put-Distinct s.handle s g.handles v.handles_distinct;
    sessions_distinct = v.sessions_distinct;
    handles_fit = omega (arith, length-put_new s.handle s g.handles still_absent);
    sessions_fit = v.sessions_fit;
  }

  pub add_handle-Safe : Inv g₀ → Safe g₀ added
  add_handle-Safe v₀ = record {
    inv = add_handle-Inv;
    extends = record {
      options = all.options;
      prefix = all.prefix;
      ids = all.ids;
      time = all.time;
      shut = all.shut;
      handles = λ h t i e. elim (text_discrete s.handle h) [
        | yes p ↦ absurd (fresh_id g₀ (rw (sym numbered ∙ p) i))
        | no p ↦ all.handles h t i (sym (lookup-put_ne h s.handle s g.handles p) ∙ e)
      ];
      sessions = all.sessions;
    };
  }
    where
      all : Extends g₀ g
      all = Extends-trans ((next-Safe g₀ v₀).extends) extends
