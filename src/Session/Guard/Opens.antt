-- ===== src/Session/Guard/Opens.antt =====
-- command-guard.ts: what `openSession`, `openHandle` and `closeHandle` ensure.
use package.ros_webrtc_bridge.Prelude.{
  ℕ, ◌+◌, ◌≡◌, refl, sym, ◌∙◌, true, ◌&&◌, not, Option, none, some, Option-cases, ltb, leb, is_some,
  length, inl, inr, Text, negsuc, arith,
}
use package.ros_webrtc_bridge.Prelude.Dict.{lookup, lookup-put_self, lookup-delete_self}
use package.ros_webrtc_bridge.Runtime.Outcome.{require, or_throw}
use package.ros_webrtc_bridge.Runtime.Exec.{continue, Ensures, returned, Ensures-lift}
use package.ros_webrtc_bridge.Session.Validation.{identifier, positive_limit}
use package.ros_webrtc_bridge.Session.Guard.{
  CommandGuard, CommandIdentity, HandleState, Host, opening, next, id, id_text, assert_open,
  or_default, open_session, open_handle, close_handle,
}
use package.ros_webrtc_bridge.Session.Guard.Topic.{is_topic}
use package.ros_webrtc_bridge.Session.Guard.Invariant.{
  Inv, Issued, fresh_id, Safe, Honest, Extends-refl, Safe-trans,
}
use package.ros_webrtc_bridge.Session.Guard.Writes.{next-Safe, later}
use package.ros_webrtc_bridge.Session.Guard.Registers.{delete-Safe}
use package.ros_webrtc_bridge.Session.Guard.Additions.{
  add_session-Safe, add_handle-Safe, fresh_handle,
}
use package.ros_webrtc_bridge.Session.Guard.Parts.{
  Owns, Allowed, owned_rule, authorize_rule, hook-Safe,
}

-- A session that is opened: under an identifier never given before, with its epoch.
pub record Opened (g g' : CommandGuard) (epoch session_id : Text) : Type 0 where
  pub new : ¬ Issued g session_id
  pub recorded : lookup session_id g'.sessions ≡ some epoch

-- On a guard whose registrations are consistent, `openSession` keeps them consistent, whether it
-- throws or returns. If it returns, the session has an identifier never given before and is registered
-- with its epoch.
pub open_session-Ensures :
    (epoch : Text) (g : CommandGuard)
    → Inv g
    → Ensures (Safe g) (λ k g'. Safe g g' × Opened g g' epoch k) (open_session epoch g)
unfolding open_session assert_open continue id next
open_session-Ensures epoch g v = Ensures-lift (require (not g.closed) _) _ self λ _ opened.
    Ensures-lift (identifier epoch) _ self λ _ good.
      Ensures-lift (require (ltb (length g.sessions) g.options.max_sessions) _) _ self λ _ room.
        returned (
          add_session-Safe g v epoch (ground arith),
          record { new = fresh_id g; recorded = lookup-put_self _ epoch g.sessions },
        )
  where
    self : Safe g g
    self = record { inv = v; extends = Extends-refl g }

-- A handle that is opened: under an identifier never given before, for the caller's open session and
-- the topic asked for, allowed by the hook, with no lease and no number received or published.
pub record HandleOpened (host : Host) (g g' : CommandGuard) (sid topic handle : Text) : Type 0 where
  pub state : HandleState
  pub new : ¬ Issued g handle
  pub recorded : lookup handle g'.handles ≡ some state
  pub session : state.session_id ≡ sid
  pub about : state.topic ≡ topic
  pub unarmed : state.lease ≡ none
  pub unused : (state.received ≡ negsuc 0) × (state.published ≡ negsuc 0)
  pub named : is_topic topic ≡ true
  pub allowed : Allowed host opening (next g) state.identity

module _ (host : Host) (honest : Honest host) (sid topic : Text) (lease_ms : Option ℕ)
    (g : CommandGuard) (v : Inv g) where
  -- The session that was there before the hook has its epoch still, if it is there after.
  same_epoch :
      (g' : CommandGuard) (epoch : Text)
      → Safe (next g) g'
      → lookup sid g.sessions ≡ some epoch
      → is_some (lookup sid g'.sessions) ≡ true
      → lookup sid g'.sessions ≡ some epoch
  unfolding next
  same_epoch g' epoch safe found there = elim (Option-cases (lookup sid g'.sessions)) [
    | inl e ↦ absurd (cc)
    | inr (e, now_) ↦
        let old : lookup sid g.sessions ≡ some e =
          safe.extends.sessions sid e (later g sid (v.sessions_issued sid epoch found)) now_ in
        now_ ∙ sym old ∙ found
  ]

  -- With a hook that does to the guard only what the guard's calls can do, on a guard whose
  -- registrations are consistent: `openHandle` keeps them consistent, whether it throws or returns. If
  -- it returns, the handle has an identifier never given before, is registered for the caller's
  -- session and a well-formed topic that the hook has allowed, has no lease, and has received and
  -- published nothing.
  pub open_handle-Ensures :
      Ensures
        (Safe g)
        (λ k g'. Safe g g' × HandleOpened host g g' sid topic k)
        (open_handle host sid topic lease_ms g)
  unfolding open_handle assert_open continue id
  open_handle-Ensures = Ensures-lift (require (not g.closed) _) _ self λ _ opened.
      Ensures-lift (positive_limit (or_default lease_ms g.options.lease_ms)) _ self λ _ positive.
        Ensures-lift (or_throw (lookup sid g.sessions) _) _ self λ epoch found.
          Ensures-lift (require (is_topic topic && leb (length topic) 247) _) _ self λ _ named.
            let i : CommandIdentity = record {
              session_id = sid;
              epoch = epoch;
              handle = k;
              topic = topic;
            } in
            authorize_rule (Safe g) host i opening (next g) _
              (Safe-trans allocated (honest.keeps i opening (next g) allocated.inv))
              λ _ m yes_.
                let safe = hook-Safe host honest i opening (next g) m allocated.inv yes_ in
                let all = Safe-trans allocated safe in
                Ensures-lift (require (is_some (lookup sid m.sessions)) _) _ all λ _ still.
                  Ensures-lift (require (ltb (length m.handles) m.options.max_handles) _) _ all
                    λ _ room.
                      let s : HandleState = record {
                        identity = i;
                        lease_ms = or_default lease_ms g.options.lease_ms;
                        lease = none;
                        received = negsuc 0;
                        published = negsuc 0;
                      } in
                      returned (
                        add_handle-Safe g m s safe.inv safe.extends refl (fresh_handle g v)
                            (same_epoch m epoch safe (ground arith) (ground arith)) refl
                            (ground arith) v,
                        record {
                          state = s;
                          new = fresh_id g;
                          recorded = lookup-put_self k s m.handles;
                          session = refl;
                          about = refl;
                          unarmed = refl;
                          unused = (refl, refl);
                          named = ground arith;
                          allowed = (m, yes_);
                        },
                      )
    where
      self : Safe g g
      self = record { inv = v; extends = Extends-refl g }

      allocated : Safe g (next g)
      allocated = next-Safe g v

      k : Text
      k = id_text g.prefix (g.next_id + 1)

-- On a guard whose registrations are consistent, `closeHandle` keeps them consistent, whether it
-- throws or returns. If it returns, the caller's session owned the handle, and the handle is gone.
pub close_handle-Ensures :
    (sid handle : Text) (g : CommandGuard)
    → Inv g
    → Ensures
        (Safe g)
        (λ _ g'.
          Safe g g' × (lookup handle g'.handles ≡ none) × ((s : HandleState) × Owns g sid handle s))
        (close_handle sid handle g)
unfolding close_handle continue
close_handle-Ensures sid handle g v =
    owned_rule (Safe g) sid handle g _ (record { inv = v; extends = Extends-refl g })
      λ s o. returned (delete-Safe handle g v, lookup-delete_self handle g.handles, (s, o))
