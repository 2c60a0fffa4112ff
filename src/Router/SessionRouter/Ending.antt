-- ===== src/Router/SessionRouter/Ending.antt =====
-- router/index.ts: what `close` leaves.
use package.ros_webrtc_bridge.Prelude.{
  ◌≡◌, refl, sym, ap, ◌∙◌, true, false, Option, none, some, List, [], ◌∷◌, if_cases, Text, arith,
}
use package.ros_webrtc_bridge.Prelude.Dict.{lookup}
use package.ros_webrtc_bridge.Runtime.Outcome.{Outcome, ok, throw}
use package.ros_webrtc_bridge.Runtime.Exec.{Exec, continue, recover, pure}
use package.ros_webrtc_bridge.Session.Queue
use package.ros_webrtc_bridge.Session.Queue.{Bytes}
use package.ros_webrtc_bridge.Session.Guard.{revoke_session}
use package.ros_webrtc_bridge.Router.Protocol.{Wire}
use package.ros_webrtc_bridge.Router.RequestCache
use package.ros_webrtc_bridge.Router.SessionRouter.{
  VideoPort, Outside, Subscription, SessionRouter, on_world,
}
use package.ros_webrtc_bridge.Router.SessionRouter.Sending.{
  let_go, unsubscribe_all, finish, close, flush, flush_on, flush_body, respond, error, error_with,
}
use package.ros_webrtc_bridge.Router.SessionRouter.Entry.{receive, sample, event}

module _ {W N : Type 0} (out : Outside W N) where
  -- The outside after the listeners have been released in turn, whether or not one throws.
  unfoldable pub released : List (Text × Subscription N) → W → W
  released [] w = w
  released ((id, x) ∷ rest) w = released rest (out.unsubscribe id w).1

  -- The outside after the media plane's router has been closed, if there is one.
  abbrev pub media_closed : W → W
  media_closed w = elim out.video [ none ↦ w | some port ↦ (port.close w).1 ]

  abbrev media_after : W → Option (VideoPort W) → W
  media_after w o = elim o [ none ↦ w | some port ↦ (port.close w).1 ]

  -- What a closed router is: nothing is held, the session is revoked, and each listener was released.
  pub record Released (r q : SessionRouter W N) : Type 0 where
    pub closed : q.closed ≡ true
    pub subscriptions : q.subscriptions ≡ []
    pub publishers : q.publishers ≡ []
    pub streams : q.queue.streams ≡ []
    pub pending : q.queue.bytes ≡ 0
    pub answers : q.cache.entries ≡ []
    pub revoked : q.guard ≡ revoke_session r.session_id r.guard
    pub world : q.world ≡ out.on_closed (released r.subscriptions (media_closed r.world))

  unsubscribe_all-world :
      (subscriptions : List (Text × Subscription N)) (r : SessionRouter W N)
      → (unsubscribe_all out subscriptions r).1
        ≡ record r { world = released subscriptions r.world }
  unfolding unsubscribe_all released
  unsubscribe_all-world [] r = refl
  unsubscribe_all-world ((id, x) ∷ rest) r =
      unsubscribe_all-world rest (record r { world = (out.unsubscribe id r.world).1 })

  finish-Released :
      (r : SessionRouter W N) (w : W)
      → r.closed ≡ false
      → media_closed r.world ≡ w
      → Released r (finish out (record r { closed = true; world = w })).1
  unfolding finish let_go Queue.clear RequestCache.clear
  finish-Released r w open_ same =
      let listeners =
        unsubscribe_all-world r.subscriptions
          (record r { closed = true; world = w; guard = revoke_session r.session_id r.guard }) in
      record {
        closed = ap (λ q. q.closed) listeners;
        subscriptions = refl;
        publishers = refl;
        streams = refl;
        pending = refl;
        answers = refl;
        revoked = ap (λ q. q.guard) listeners;
        world =
            ap (λ q. out.on_closed q.world) listeners
            ∙ ap (λ v. out.on_closed (released r.subscriptions v)) (sym same);
      }

  -- If the media plane's close does not throw, then closing an open router, also where the release of a
  -- listener throws, lets everything go: the handles, the queue, and the request cache are empty, the
  -- session is revoked and nothing else of the guard is written, and each listener has been released once,
  -- in order, after the media plane and before the transport is told.
  pub close-Released :
      (r : SessionRouter W N)
      → r.closed ≡ false
      → ((port : VideoPort W) → out.video ≡ some port → (port.close r.world).0 ≡ ok tt)
      → Released r (close out r).1
  unfolding close continue
  close-Released r open_ quiet =
      if_cases (λ (a : Outcome (Unit {0}) × SessionRouter W N). Released r a.1) r.closed
        (λ h. absurd (cc (h, open_))) (λ _. go out.video refl)
    where
      shut : SessionRouter W N
      shut = record r { closed = true }

      ended :
          (o : Outcome (Unit {0})) (w : W)
          → o ≡ ok tt
          → media_closed r.world ≡ w
          → Released r (continue (o, record shut { world = w }) (λ _. finish out)).1
      ended (ok _) w h same = finish-Released r w open_ same
      ended (throw e) w h same = ground arith

      go :
          (o : Option (VideoPort W))
          → out.video ≡ o
          → Released r
              (continue
                ((elim o as (λ _. Exec (SessionRouter W N) (Unit {0})) [
                  | none ↦ pure tt
                  | some port ↦ on_world port.close
                ])
                  shut)
                (λ _. finish out)).1
      go none e = finish-Released r r.world open_ (ap (media_after r.world) e)
      go (some port) e =
          ended (port.close r.world).0 (port.close r.world).1 (quiet port e)
            (ap (media_after r.world) e)

  -- A closed router without listeners answers nothing and writes nothing, whatever it is called with.
  pub closed-Inert :
      (r : SessionRouter W N)
      → r.closed ≡ true
      → r.subscriptions ≡ []
      → ((label : Text) (raw : Bytes) → receive out label raw r ≡ (ok tt, r))
        × ((id : Text) (native : N) → sample out id native r ≡ (ok tt, r))
        × ((wire : Wire) → event out wire r ≡ (ok tt, r))
        × (flush out r ≡ (ok tt, r))
        × (close out r ≡ (ok tt, r))
  unfolding receive sample event flush flush_on flush_body respond error error_with close continue
      recover lookup
  closed-Inert r shut none_left = (
    λ label raw. ground arith,
    λ id native. ground arith,
    λ wire. ground arith,
    ground arith,
    ground arith,
  )
