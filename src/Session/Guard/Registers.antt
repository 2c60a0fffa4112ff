-- ===== src/Session/Guard/Registers.antt =====
-- command-guard.ts: what is taken away keeps the invariant.
use package.ros_webrtc_bridge.Prelude.{
  ◌≤◌, ◌≡◌, ◌≢◌, refl, ap, Bool, true, not, none, some, List, [], is_some, length, Text, same_text,
  ◌⊎◌, inl, inr, Option-cases, arith,
}
use package.ros_webrtc_bridge.Prelude.Dict.{
  lookup, delete, map_values, Distinct, lookup-delete, lookup-map_values, lookup-keep,
  delete-Distinct, map_values-Distinct, keep-Distinct, length-delete-le, length-keep-le,
  length-map_values,
}
use package.ros_webrtc_bridge.Session.Guard.{
  CommandGuard, HandleState, Lease, disarm, revoke_session, close,
}
use package.ros_webrtc_bridge.Session.Guard.Invariant.{Issued, Inv, Advances, Safe, Advances-refl}

disarm_cases :
    (topic : Text) (s : HandleState)
    → ((s.topic ≡ topic) × (disarm topic s ≡ record s { lease = none })) ⊎ (disarm topic s ≡ s)
unfolding disarm
disarm_cases topic s = ground arith

pub disarm-identity : (topic : Text) (s : HandleState) → (disarm topic s).identity ≡ s.identity
unfolding disarm
disarm-identity topic s = ground arith

-- A state that has its lease after `disarm` is one that `disarm` left alone.
pub disarm_kept :
    (topic : Text) (s : HandleState)
    → is_some (disarm topic s).lease ≡ true
    → (disarm topic s ≡ s) × (s.topic ≢ topic)
unfolding disarm
disarm_kept topic s h = ground arith

disarm-Advances : (topic : Text) (s : HandleState) → Advances s (disarm topic s)
disarm-Advances topic s = elim (disarm_cases topic s) [
  | inl (_, e) ↦ rw e (record { identity = refl; received = omega arith; published = omega arith })
  | inr e ↦ rw e (Advances-refl s)
]

-- Every lease of a topic is taken back.
abbrev pub disarmed : CommandGuard → Text → CommandGuard
disarmed g topic = record g { handles = map_values (disarm topic) g.handles }

module _ (g : CommandGuard) (topic : Text) (v : Inv g) where
  pub read_disarmed :
      (k : Text) (t : HandleState)
      → lookup k (disarmed g topic).handles ≡ some t
      → (s : HandleState) × (lookup k g.handles ≡ some s) × (t ≡ disarm topic s)
  read_disarmed k t e = elim (Option-cases (lookup k g.handles)) [
    | inl missing ↦ absurd (cc (lookup-map_values (disarm topic) k g.handles))
    | inr (s, found) ↦ (s, found, cc (lookup-map_values (disarm topic) k g.handles))
  ]

  disarm_transfer :
      (P : Text → HandleState → Type 0)
      → ((k : Text) (s : HandleState) → lookup k g.handles ≡ some s → P k (disarm topic s))
      → (k : Text) (t : HandleState) → lookup k (disarmed g topic).handles ≡ some t
      → P k t
  disarm_transfer P old k t e =
      let (s, found, same) = read_disarmed k t e in rw same (old k s found)

  abbrev Apart : Text → HandleState → Text → HandleState → Type 0
  Apart k t k' t' = t.topic ≡ t'.topic → is_some t.lease ≡ true → is_some t'.lease ≡ true → k ≡ k'

  others_differ :
      (k k' : Text) (s s' : HandleState)
      → lookup k g.handles ≡ some s
      → lookup k' g.handles ≡ some s'
      → Apart k (disarm topic s) k' (disarm topic s')
  others_differ k k' s s' f f' same l m =
      let (e, _) = disarm_kept topic s l in
      let (e', _) = disarm_kept topic s' m in v.exclusive k k' s s' f f' (cc) (cc) (cc)

  pub disarm-Safe : Safe g (disarmed g topic)
  disarm-Safe = record {
    inv = record {
      keyed =
          disarm_transfer (λ k t. t.handle ≡ k)
            (λ k s f. rw (disarm-identity topic s) (v.keyed k s f));
      held =
          disarm_transfer (λ k t. lookup t.session_id g.sessions ≡ some t.epoch)
            (λ k s f. rw (disarm-identity topic s) (v.held k s f));
      exclusive = λ k k' t t' e e'.
          disarm_transfer (λ a x. Apart a x k' t')
            (λ a s f.
              disarm_transfer (λ b y. Apart a (disarm topic s) b y)
                (λ b s' f'. others_differ a b s s' f f') k' t' e')
            k t e;
      handles_issued = disarm_transfer (λ k t. Issued g k) v.handles_issued;
      sessions_issued = v.sessions_issued;
      leases_issued = λ k t l e f.
          disarm_transfer (λ a x. (m : Lease) → x.lease ≡ some m → Issued g m.id)
            (λ a s old m has.
              let (same, _) = disarm_kept topic s (ap is_some has) in
              v.leases_issued a s m old (cc))
            k t e l f;
      handles_distinct = map_values-Distinct (disarm topic) g.handles v.handles_distinct;
      sessions_distinct = v.sessions_distinct;
      handles_fit = omega (arith, length-map_values (disarm topic) g.handles, v.handles_fit);
      sessions_fit = v.sessions_fit;
    };
    extends = record {
      options = refl;
      prefix = refl;
      ids = omega arith;
      time = omega arith;
      shut = λ c. c;
      handles = λ k t _ e.
          let (s, found, same) = read_disarmed k t e in
          (s, found, rw same (disarm-Advances topic s));
      sessions = λ k e _ f. f;
    };
  }

-- Registrations are taken away, and each handle left has its session left.
pub restrict-Safe :
    (g : CommandGuard) (ss : List (Text × Text)) (hs : List (Text × HandleState)) (c : Bool)
    → Inv g
    → (g.closed ≡ true → c ≡ true)
    → ((k e : Text) → lookup k ss ≡ some e → lookup k g.sessions ≡ some e)
    → ((h : Text) (s : HandleState) → lookup h hs ≡ some s → lookup h g.handles ≡ some s)
    → ((h : Text) (s : HandleState) → lookup h hs ≡ some s → lookup s.session_id ss ≡ some s.epoch)
    → Distinct ss × Distinct hs × (length ss ≤ length g.sessions) × (length hs ≤ length g.handles)
    → Safe g (record g { sessions = ss; handles = hs; closed = c })
restrict-Safe g ss hs c v shut fewer_ss fewer_hs held (ds, dh, ls, lh) = record {
  inv = record {
    keyed = λ h s e. v.keyed h s (fewer_hs h s e);
    held = held;
    exclusive = λ h h' s s' e e'. v.exclusive h h' s s' (fewer_hs h s e) (fewer_hs h' s' e');
    handles_issued = λ h s e. v.handles_issued h s (fewer_hs h s e);
    sessions_issued = λ k e f. v.sessions_issued k e (fewer_ss k e f);
    leases_issued = λ h s l e. v.leases_issued h s l (fewer_hs h s e);
    handles_distinct = dh;
    sessions_distinct = ds;
    handles_fit = omega (arith, v.handles_fit);
    sessions_fit = omega (arith, v.sessions_fit);
  };
  extends = record {
    options = refl;
    prefix = refl;
    ids = omega arith;
    time = omega arith;
    shut = shut;
    handles = λ h s _ e. (s, fewer_hs h s e, Advances-refl s);
    sessions = λ k e _ f. fewer_ss k e f;
  };
}

-- `revokeSession`
pub revoke_session-Safe :
    (session_id : Text) (g : CommandGuard) → Inv g → Safe g (revoke_session session_id g)
unfolding revoke_session
revoke_session-Safe sid g v =
    restrict-Safe g _ _ g.closed v (λ c. c)
      (λ k e f. ground (arith, lookup-delete k sid g.sessions))
      (λ h s f.
        ground (
          arith,
          lookup-keep (λ s. not (same_text s.session_id sid)) h g.handles v.handles_distinct,
        ))
      (λ h s f. ground (
        arith,
        v.held h s,
        lookup-keep (λ s. not (same_text s.session_id sid)) h g.handles v.handles_distinct,
        lookup-delete s.session_id sid g.sessions,
      ))
      (
        delete-Distinct sid g.sessions v.sessions_distinct,
        keep-Distinct _ g.handles v.handles_distinct,
        length-delete-le sid g.sessions,
        length-keep-le _ g.handles,
      )

-- `close`
pub close-Safe : (g : CommandGuard) → Inv g → Safe g (close g)
unfolding close lookup
close-Safe g v =
    restrict-Safe g [] [] true v (λ _. refl) (λ k e f. absurd (cc)) (λ h s f. absurd (cc))
      (λ h s f. absurd (cc)) (tt, tt, omega arith, omega arith)

-- The end of `closeHandle`.
pub delete-Safe :
    (h : Text) (g : CommandGuard) → Inv g → Safe g (record g { handles = delete h g.handles })
delete-Safe h g v =
    restrict-Safe g g.sessions (delete h g.handles) g.closed v (λ c. c) (λ k e f. f) fewer
      (λ k s f. v.held k s (fewer k s f))
      (
        v.sessions_distinct,
        delete-Distinct h g.handles v.handles_distinct,
        omega arith,
        length-delete-le h g.handles,
      )
  where
    fewer :
        (k : Text) (s : HandleState)
        → lookup k (delete h g.handles) ≡ some s
        → lookup k g.handles ≡ some s
    fewer k s f = ground (arith, lookup-delete k h g.handles)
