-- ===== src/Router/SessionRouter/Lifetime.antt =====
-- router/index.ts: every history of a router.
use package.ros_webrtc_bridge.Prelude.{Text}
use package.ros_webrtc_bridge.Runtime.Exec.{Ensures-state, Keeps}
use package.ros_webrtc_bridge.Session.Queue.{Bytes}
use package.ros_webrtc_bridge.Session.Guard.{CommandGuard}
use package.ros_webrtc_bridge.Router.Protocol.{Wire}
use package.ros_webrtc_bridge.Router.RequestCache.Accounting
use package.ros_webrtc_bridge.Router.SessionRouter.{Outside, SessionRouter}
use package.ros_webrtc_bridge.Router.SessionRouter.Sending.{flush, close}
use package.ros_webrtc_bridge.Router.SessionRouter.Entry.{receive, sample, event}
use package.ros_webrtc_bridge.Router.SessionRouter.Invariant.{Respects, Sound, world-Sound}
use package.ros_webrtc_bridge.Router.SessionRouter.Flushing.{flush-Keeps, close-Keeps}
use package.ros_webrtc_bridge.Router.SessionRouter.Requests.{OnCache}
use package.ros_webrtc_bridge.Router.SessionRouter.Calls.{
  cleared, removed, receive-Keeps, sample-Keeps, event-Keeps,
}

module _ {W N : Type 0} (out : Outside W N) (P : W → Type 0) where
  -- A step is a call of the router, which may throw, or happens outside: the outside moves on within `P`,
  -- or the other peers use the guard.
  pub data Step (r : SessionRouter W N) : SessionRouter W N → Type 0 where
    received : (label : Text) (raw : Bytes) → Step r (receive out label raw r).1
    sampled : (id : Text) (native : N) → Step r (sample out id native r).1
    notified : (wire : Wire) → Step r (event out wire r).1
    flushed : Step r (flush out r).1
    closed_down : Step r (close out r).1
    moved : (world : W) → P world → Step r (record r { world = world })
    shared : (guard : CommandGuard) → Step r (record r { guard = guard })

  pub data Reached (r : SessionRouter W N) : SessionRouter W N → Type 0 where
    here : Reached r r
    after : {q s : SessionRouter W N} → Reached r q → Step q s → Reached r s

module _ {W N : Type 0} {out : Outside W N} {P : W → Type 0} (laws : Respects out P) where
  abbrev pub J : SessionRouter W N → Type 0
  J = Sound P (OnCache Accounting.IsValid)

  kept :
      {A : Type 0} {m : SessionRouter W N → _} (r : SessionRouter W N)
      → Keeps {A = A} J m
      → J r
      → J (m r).1
  kept r keeps s = Ensures-state (keeps r s) (λ _ _ t. t)

  Step-Sound : (r q : SessionRouter W N) → Step out P r q → J r → J q
  Step-Sound r _ (received label raw) s = kept r (receive-Keeps out laws label raw) s
  Step-Sound r _ (sampled id native) s = kept r (sample-Keeps out laws id native) s
  Step-Sound r _ (notified wire) s = kept r (event-Keeps out laws wire) s
  Step-Sound r _ flushed s = kept r (flush-Keeps out laws cleared removed) s
  Step-Sound r _ closed_down s = kept r (close-Keeps out laws cleared) s
  Step-Sound r _ (moved world p) s = world-Sound P (OnCache Accounting.IsValid) r world p s
  Step-Sound r _ (shared guard) s = record {
    world = s.world;
    kept = s.kept;
    queue = s.queue;
    tables = s.tables;
    named = s.named;
  }

  -- If the outside's calls keep `P`, those to ROS where the topic is authorized for the peer at that
  -- moment, then every router reached from one in its invariant, by any calls in any order, throws
  -- included, while the outside moves and other peers use the guard, is in it: `P` holds of the outside;
  -- the subscriptions are the queue's streams but the control stream, which is there while the router is
  -- open; subscriptions and publishers together are within the limit of handles; and the queue and the
  -- request cache are valid.
  pub reached-Sound : (r q : SessionRouter W N) → J r → Reached out P r q → J q
  reached-Sound r _ s here = s
  reached-Sound r q s (after {q = p} reached step) =
      Step-Sound p q step (reached-Sound r p s reached)
