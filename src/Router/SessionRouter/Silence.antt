-- ===== src/Router/SessionRouter/Silence.antt =====
-- router/index.ts: what comes after `close`.
use mathlib.Core.Path.{subst}
use package.ros_webrtc_bridge.Prelude.{◌≡◌, sym, true, false, some, [], Text}
use package.ros_webrtc_bridge.Runtime.Outcome.{Outcome, ok}
use package.ros_webrtc_bridge.Session.Queue.{Bytes}
use package.ros_webrtc_bridge.Router.Protocol.{Wire}
use package.ros_webrtc_bridge.Router.SessionRouter.{VideoPort, Outside, SessionRouter}
use package.ros_webrtc_bridge.Router.SessionRouter.Sending.{flush, close}
use package.ros_webrtc_bridge.Router.SessionRouter.Entry.{receive, sample, event}
use package.ros_webrtc_bridge.Router.SessionRouter.Lifetime.{
  Step, received, sampled, notified, flushed, closed_down, moved, shared, Reached, here, after,
}
use package.ros_webrtc_bridge.Router.SessionRouter.Ending.{close-Released, closed-Inert}

module _ {W N : Type 0} (out : Outside W N) where
  -- The router is closed and holds nothing.
  pub record Spent (q : SessionRouter W N) : Type 0 where
    pub closed : q.closed ≡ true
    pub subscriptions : q.subscriptions ≡ []
    pub publishers : q.publishers ≡ []
    pub streams : q.queue.streams ≡ []
    pub pending : q.queue.bytes ≡ 0
    pub answers : q.cache.entries ≡ []

  -- Every call returns, and leaves the router, the guard and the outside as they are.
  pub record Silent (q : SessionRouter W N) : Type 0 where
    pub receives : (label : Text) (raw : Bytes) → receive out label raw q ≡ (ok tt, q)
    pub samples : (id : Text) (native : N) → sample out id native q ≡ (ok tt, q)
    pub events : (wire : Wire) → event out wire q ≡ (ok tt, q)
    pub flushes : flush out q ≡ (ok tt, q)
    pub closes : close out q ≡ (ok tt, q)

  Spent-Silent : (q : SessionRouter W N) → Spent q → Silent q
  Spent-Silent q s =
      let (receives, samples, events, flushes, closes) =
        closed-Inert out q s.closed s.subscriptions in
      record {
        receives = receives;
        samples = samples;
        events = events;
        flushes = flushes;
        closes = closes;
      }

  -- A call that leaves the router as it is.
  unmoved :
      (q : SessionRouter W N) (a : Outcome (Unit {0}) × SessionRouter W N)
      → Spent q
      → a ≡ (ok tt, q)
      → Spent a.1
  unmoved q a s e = subst (λ b. Spent b.1) (sym e) s

  close-Spent :
      (r : SessionRouter W N)
      → r.closed ≡ false
      → ((port : VideoPort W) → out.video ≡ some port → (port.close r.world).0 ≡ ok tt)
      → Spent (close out r).1
  close-Spent r open_ quiet =
      let done = close-Released out r open_ quiet in
      record {
        closed = done.closed;
        subscriptions = done.subscriptions;
        publishers = done.publishers;
        streams = done.streams;
        pending = done.pending;
        answers = done.answers;
      }

  module _ {P : W → Type 0} where
    Step-Spent : (q p : SessionRouter W N) → Step out P q p → Spent q → Spent p
    Step-Spent q _ (received label raw) s = unmoved q _ s ((Spent-Silent q s).receives label raw)
    Step-Spent q _ (sampled id native) s = unmoved q _ s ((Spent-Silent q s).samples id native)
    Step-Spent q _ (notified wire) s = unmoved q _ s ((Spent-Silent q s).events wire)
    Step-Spent q _ flushed s = unmoved q _ s (Spent-Silent q s).flushes
    Step-Spent q _ closed_down s = unmoved q _ s (Spent-Silent q s).closes
    Step-Spent q _ (moved world p) s = record {
      closed = s.closed;
      subscriptions = s.subscriptions;
      publishers = s.publishers;
      streams = s.streams;
      pending = s.pending;
      answers = s.answers;
    }
    Step-Spent q _ (shared guard) s = record {
      closed = s.closed;
      subscriptions = s.subscriptions;
      publishers = s.publishers;
      streams = s.streams;
      pending = s.pending;
      answers = s.answers;
    }

    Reached-Spent : (r q : SessionRouter W N) → Spent r → Reached out P r q → Spent q
    Reached-Spent r _ s here = s
    Reached-Spent r q s (after {q = p} reached step) =
        Step-Spent p q step (Reached-Spent r p s reached)

    -- If the media plane's close does not throw, then once an open router has been closed, also where
    -- the release of a listener throws, it stays closed and holds nothing, and every later call of it, a
    -- sample of a listener that was not released included, returns and leaves the router, the guard and
    -- the outside as they are, whatever calls come before it, in any order, while the outside moves on and
    -- other peers use the guard.
    pub close-Silent :
        (r q : SessionRouter W N)
        → r.closed ≡ false
        → ((port : VideoPort W) → out.video ≡ some port → (port.close r.world).0 ≡ ok tt)
        → Reached out P (close out r).1 q
        → Spent q × Silent q
    close-Silent r q open_ quiet reached =
        let spent = Reached-Spent (close out r).1 q (close-Spent r open_ quiet) reached in
        (spent, Spent-Silent q spent)
