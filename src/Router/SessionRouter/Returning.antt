-- ===== src/Router/SessionRouter/Returning.antt =====
-- router/index.ts: what is thrown within a call does not leave the router.
use package.ros_webrtc_bridge.Prelude.{
  ◌+◌, length, ◌≡◌, refl, ap, Bool, true, false, Option, none, some, List, [], ◌∷◌, is_some,
  if_cases, if◌then◌else◌, Text, inl, inr, arith,
}
use package.ros_webrtc_bridge.Prelude.Dict.{lookup}
use package.ros_webrtc_bridge.Runtime.Outcome.{
  Outcome, ok, throw, Error, require, or_throw, unknown_stream, cleanup_failed,
}
use package.ros_webrtc_bridge.Runtime.Exec.{
  Exec, continue, recover, attempt, settle, pure, ◌>>◌, Ensures, Ensures-step, returned, threw,
}
use package.ros_webrtc_bridge.Session.Queue.{Bytes}
use package.ros_webrtc_bridge.Session.Queue.Names.{close_stream-streams}
use package.ros_webrtc_bridge.Session.Guard.{revoke_session}
use package.ros_webrtc_bridge.Router.Protocol.{Wire}
use package.ros_webrtc_bridge.Router.RequestCache.Accounting
use package.ros_webrtc_bridge.Router.SessionRouter.{
  Channel, VideoPort, Outside, Subscription, SessionRouter, on_world,
}
use package.ros_webrtc_bridge.Router.SessionRouter.Sending.{
  no_fuel, find_subscription, remove_subscription, unsubscribe_all, finish, close, error_wire,
  error_with, error, flush_on, flush, respond,
}
use package.ros_webrtc_bridge.Router.SessionRouter.Entry.{
  read_message, dispatch, handle_message, receive, deliver, drop_sample, sample, event,
}
use package.ros_webrtc_bridge.Router.SessionRouter.Invariant.{Respects, Sound, Sound-map}
use package.ros_webrtc_bridge.Router.SessionRouter.Requests.{OnCache}
use package.ros_webrtc_bridge.Router.SessionRouter.Calls.{deliver-Ensures}

-- The releases of the outside do not throw: those of the ROS adapter, and of the media plane.
pub record Quiet {W N : Type 0} (out : Outside W N) : Type 0 where
  pub unsubscribe : (id : Text) (w : W) → (out.unsubscribe id w).0 ≡ ok tt
  pub video_close : (port : VideoPort W) (w : W) → out.video ≡ some port → (port.close w).0 ≡ ok tt

-- A call that returns.
abbrev pub Returns : {S : Type 0} → Exec S (Unit {0}) → S → Type 0
Returns m s = (m s).0 ≡ ok tt

attempt-Returns :
    {S : Type 0} (m : Exec S (Unit {0})) (handler : Error → Exec S (Unit {0})) (s : S)
    → ((e : Error) (t : S) → Returns (handler e) t)
    → Returns (attempt m handler) s
unfolding recover
attempt-Returns {S} m handler s h = go (m s)
  where
    go : (r : Outcome (Unit {0}) × S) → (recover r handler).0 ≡ ok tt
    go (ok _, t) = refl
    go (throw e, t) = h e t

module _ {W N : Type 0} (out : Outside W N) (quiet : Quiet out) where
  unsubscribe_all-clean :
      (subscriptions : List (Text × Subscription N)) (r : SessionRouter W N)
      → (unsubscribe_all out subscriptions r).0 ≡ true
  unfolding unsubscribe_all
  unsubscribe_all-clean [] r = refl
  unsubscribe_all-clean ((id, x) ∷ rest) r =
      go (out.unsubscribe id r.world).0 (quiet.unsubscribe id r.world)
        (unsubscribe_all-clean rest after)
    where
      after : SessionRouter W N
      after = record r { world = (out.unsubscribe id r.world).1 }

      go :
          (o : Outcome (Unit {0}))
          → o ≡ ok tt
          → (unsubscribe_all out rest after).0 ≡ true
          → elim o as (λ _. Bool) [ ok _ ↦ (unsubscribe_all out rest after).0 | throw _ ↦ false ]
            ≡ true
      go (ok _) h clean = clean
      go (throw e) h clean = ground arith

  finish-Returns : (r : SessionRouter W N) → Returns (finish out) r
  unfolding finish
  finish-Returns r =
      ap (λ b. require b cleanup_failed)
        (unsubscribe_all-clean r.subscriptions
          (record r { guard = revoke_session r.session_id r.guard }))

  close-Returns : (r : SessionRouter W N) → Returns (close out) r
  unfolding close continue
  close-Returns r =
      if_cases (λ (a : Outcome (Unit {0}) × SessionRouter W N). a.0 ≡ ok tt) r.closed (λ _. refl)
        (λ _. go out.video refl)
    where
      shut : SessionRouter W N
      shut = record r { closed = true }

      ended :
          (o : Outcome (Unit {0})) (q : SessionRouter W N)
          → o ≡ ok tt
          → (continue (o, q) (λ _. finish out)).0 ≡ ok tt
      ended (ok _) q h = finish-Returns q
      ended (throw e) q h = ground arith

      go :
          (o : Option (VideoPort W))
          → out.video ≡ o
          → (continue
              ((elim o as (λ _. Exec (SessionRouter W N) (Unit {0})) [
                | none ↦ pure tt
                | some port ↦ on_world port.close
              ])
                shut)
              (λ _. finish out)).0
            ≡ ok tt
      go none e = finish-Returns shut
      go (some port) e = ended (port.close r.world).0 _ (quiet.video_close port r.world e)

  error-Returns : (id : Option Text) (r : SessionRouter W N) → Returns (error out id) r
  unfolding error error_with
  error-Returns id r =
      if_cases (λ (a : Outcome (Unit {0}) × SessionRouter W N). a.0 ≡ ok tt) r.closed (λ _. refl)
        (λ _.
          attempt-Returns
            (respond out (error_wire id) >> flush_on out no_fuel (length r.subscriptions + 1))
            (λ _. close out) r (λ _ t. close-Returns t))

  pub event-Returns : (wire : Wire) (r : SessionRouter W N) → Returns (event out wire) r
  unfolding event
  event-Returns wire r =
      attempt-Returns (respond out wire >> flush out) (λ _. error out none) r
        (λ _ t. error-Returns none t)

  pub receive-Returns :
      (label : Text) (raw : Bytes) (r : SessionRouter W N) → Returns (receive out label raw) r
  unfolding receive handle_message settle
  receive-Returns label raw r =
      if_cases (λ (a : Outcome (Unit {0}) × SessionRouter W N). a.0 ≡ ok tt) r.closed (λ _. refl)
        (λ _. go (read_message out label raw r))
    where
      go :
          (a : Outcome (Channel × (Wire × Option Text)) × SessionRouter W N)
          → (settle a (handle_message out) (λ _. error out none)).0 ≡ ok tt
      go (ok (channel, (wire, id)), t) =
          attempt-Returns (dispatch out channel wire id >> flush out) (λ _. error out id) t
            (λ _ q. error-Returns id q)
      go (throw e, t) = error-Returns none t

  module _ {P : W → Type 0} where
    -- A listener that is in the table is released, since its stream is there.
    remove_subscription-Returns :
        (id : Text) (x : Subscription N) (r : SessionRouter W N)
        → Sound P (OnCache Accounting.IsValid) r
        → lookup id r.subscriptions ≡ some x
        → Returns (remove_subscription out id) r
    unfolding remove_subscription find_subscription
    remove_subscription-Returns id x r s e = elim (close_stream-streams id r.queue) [
      | inl (done, _, _, _) ↦ done_by (
          Ensures-step (or_throw (lookup id r.subscriptions) unknown_stream, r) _ x
            (ap (λ o. or_throw o unknown_stream) e)
            (Ensures-step _ _ tt done (certain _ (quiet.unsubscribe id r.world))))
      | inr (_, missing) ↦ absurd (ground (arith, s.tables.served id))
    ]
      where
        Certain : Outcome (Unit {0}) × SessionRouter W N → Type 0
        Certain = Ensures (λ _. false ≡ true) (λ _ _. Unit {0})

        done_by : {a : Outcome (Unit {0}) × SessionRouter W N} → Certain a → a.0 ≡ ok tt
        done_by (returned _) = refl
        done_by (threw h) = absurd (cc (h))

        certain : (a : Outcome (Unit {0}) × SessionRouter W N) → a.0 ≡ ok tt → Certain a
        certain (ok _, q) h = returned tt
        certain (throw e, q) h = ground arith

    drop_sample-Returns :
        (id : Text) (r : SessionRouter W N)
        → Sound P (OnCache Accounting.IsValid) r
        → Returns (drop_sample out id) r
    unfolding drop_sample continue
    drop_sample-Returns id r s = go (lookup id r.subscriptions) refl
      where
        removed :
            (a : Outcome (Unit {0}) × SessionRouter W N)
            → a.0 ≡ ok tt
            → (continue a (λ _. error out none)).0 ≡ ok tt
        removed (ok _, q) h = error-Returns none q
        removed (throw e, q) h = ground arith

        go :
            (o : Option (Subscription N))
            → lookup id r.subscriptions ≡ o
            → (continue
                ((elim (is_some o) as (λ _. Exec (SessionRouter W N) (Unit {0})) [
                  | true ↦ remove_subscription out id
                  | false ↦ pure tt
                ])
                  r)
                (λ _. error out none)).0
              ≡ ok tt
        go none e = error-Returns none r
        go (some x) e =
            removed (remove_subscription out id r) (remove_subscription-Returns id x r s e)

    sample-Returns :
        (laws : Respects out P) (id : Text) (native : N) (r : SessionRouter W N)
        → Sound P (OnCache Accounting.IsValid) r
        → Returns (sample out id native) r
    unfolding sample recover
    sample-Returns laws id native r s = go (lookup id r.subscriptions) refl
      where
        caught :
            {a : Outcome (Unit {0}) × SessionRouter W N}
            → Ensures
                (Sound P (OnCache Accounting.IsValid))
                (λ _. Sound P (OnCache Accounting.IsValid))
                a
            → (recover a (λ _. drop_sample out id)).0 ≡ ok tt
        caught (returned _) = refl
        caught (threw t) = drop_sample-Returns id _ t

        delivered :
            (x : Subscription N)
            → lookup id r.subscriptions ≡ some x
            → (ready : Bool)
            → (if ready
                then attempt (deliver out id x native) (λ _. drop_sample out id) r
                else (ok tt, r)).0
              ≡ ok tt
        delivered x e true =
            caught (deliver-Ensures out laws id x native r (Sound-map r (λ k. (k, e)) s))
        delivered x e false = refl

        go :
            (o : Option (Subscription N))
            → lookup id r.subscriptions ≡ o
            → (elim o as (λ _. Outcome (Unit {0}) × SessionRouter W N) [
              | none ↦ (ok tt, r)
              | some x ↦
                  if x.ready
                  then attempt (deliver out id x native) (λ _. drop_sample out id) r
                  else (ok tt, r)
            ]).0
              ≡ ok tt
        go none e = refl
        go (some x) e = delivered x e x.ready

    -- If no release of the outside throws, then on a router in its invariant no message of the peer, no
    -- ROS sample and no event of the media plane makes a call throw, whatever is thrown within it.
    pub calls-Return :
        (laws : Respects out P) (r : SessionRouter W N)
        → Sound P (OnCache Accounting.IsValid) r
        → ((label : Text) (raw : Bytes) → Returns (receive out label raw) r)
          × ((id : Text) (native : N) → Returns (sample out id native) r)
          × ((wire : Wire) → Returns (event out wire) r)
    calls-Return laws r s = (
      λ label raw. receive-Returns label raw r,
      λ id native. sample-Returns laws id native r s,
      λ wire. event-Returns wire r,
    )
