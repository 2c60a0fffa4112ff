-- ===== src/Router/SessionRouter/Construction.antt =====
-- router/index.ts: the constructor.
use package.ros_webrtc_bridge.Prelude.{
  ℕ, ◌+◌, Bool, false, not, ◌&&◌, leb, List, [], ◌∷◌, is_some, if◌then◌else◌, Text, codes,
}
use package.ros_webrtc_bridge.Prelude.Dict.{lookup, put}
use package.ros_webrtc_bridge.Runtime.Outcome.{
  Outcome, ok, throw, require, invalid_binding, ◌>>=◌, ◌>>◌,
}
use package.ros_webrtc_bridge.Runtime.Exec.{Exec, continue}
use package.ros_webrtc_bridge.Config.{TopicBinding}
use package.ros_webrtc_bridge.Session.Validation.{identifier, positive_limit}
use package.ros_webrtc_bridge.Session.Queue
use package.ros_webrtc_bridge.Session.Queue.{DeliveryQueue, QueueOptions, register}
use package.ros_webrtc_bridge.Session.Guard
use package.ros_webrtc_bridge.Session.Guard.{CommandGuard}
use package.ros_webrtc_bridge.Router.RequestCache
use package.ros_webrtc_bridge.Router.SessionRouter.{
  RouterBinding, Outside, SessionRouter, control_stream, on_guard, now,
}

-- `is_configured` says whether the configuration lists this very object.
pub record RouterOptions (N : Type 0) : Type 0 where
  pub is_configured : TopicBinding → Bool
  pub max_message_bytes : ℕ
  pub max_peer_queue_bytes : ℕ
  pub bindings : List (RouterBinding N)
  pub epoch : Text
  pub max_handles : ℕ
  pub max_requests : ℕ
  pub request_ttl_ms : ℕ
  pub max_control_rate : ℕ

abbrev pub minimum : ℕ → ℕ → ℕ
minimum a b = if leb a b then a else b

module _ {N : Type 0} where
  -- The loop over the bindings: `entries` is the map so far.
  unfoldable pub read_entries :
      (TopicBinding → Bool)
      → List (RouterBinding N)
      → List (Text × RouterBinding N)
      → Outcome (List (Text × RouterBinding N))
  unfolding lookup identifier
  read_entries is_configured [] entries = ok entries
  read_entries is_configured (entry ∷ rest) entries =
      require
        (is_configured entry.binding && not (is_some (lookup entry.binding.public_name entries)))
        invalid_binding
      >> identifier entry.schema_id
      >> read_entries is_configured rest (put entry.binding.public_name entry entries)

  unfoldable pub check_limits : RouterOptions N → Outcome (Unit {0})
  unfolding positive_limit
  check_limits options = do
    positive_limit options.max_handles
    positive_limit options.max_requests
    positive_limit options.request_ttl_ms
    positive_limit options.max_control_rate

  abbrev pub queue_options : RouterOptions N → QueueOptions
  queue_options options = record {
    max_streams = options.max_handles + 1;
    max_bytes = options.max_peer_queue_bytes;
    max_message_bytes = minimum 16384 options.max_message_bytes;
  }

  unfoldable pub new_queue : RouterOptions N → Outcome DeliveryQueue
  unfolding Queue.init
  new_queue options = Queue.init (queue_options options)

-- `queue.register('control', 'reliable', max_requests)`
unfoldable pub add_control : ℕ → DeliveryQueue → Outcome DeliveryQueue
add_control max_requests q =
    let (outcome, q') = register control_stream (codes "reliable") max_requests q in
    outcome >> ok q'

module _ {W N : Type 0} where
  -- The fields up to the media plane's; the session is opened later.
  abbrev pub assembled :
      RouterOptions N
      → List (Text × RouterBinding N)
      → DeliveryQueue
      → CommandGuard
      → W
      → SessionRouter W N
  assembled options entries queue guard world = record {
    limits = record {
      max_handles = options.max_handles;
      max_requests = options.max_requests;
      request_ttl_ms = options.request_ttl_ms;
      max_control_rate = options.max_control_rate;
      max_bytes = minimum 16384 options.max_message_bytes;
    };
    session_id = [];
    epoch = options.epoch;
    entries = entries;
    subscriptions = [];
    publishers = [];
    queue = queue;
    cache =
        RequestCache.init options.max_requests options.request_ttl_ms options.max_peer_queue_bytes;
    guard = guard;
    next_id = 0;
    last_time = 0;
    control_window = 0;
    control_count = 0;
    welcomed = false;
    closed = false;
    world = world;
  }

  unfoldable pub assemble : RouterOptions N → CommandGuard → W → Outcome (SessionRouter W N)
  unfolding check_limits identifier read_entries new_queue add_control
  assemble options guard world = do
    check_limits options
    identifier options.epoch
    entries ← read_entries options.is_configured options.bindings []
    empty ← new_queue options
    queue ← add_control options.max_requests empty
    ok (assembled options entries queue guard world)

module _ {W N : Type 0} (out : Outside W N) where
  -- The end of the constructor: the clock is read, and the guard opens a session.
  unfoldable pub enter : Exec (SessionRouter W N) (Unit {0})
  unfolding continue
  enter r = continue (now out r) (λ _ q.
      continue (on_guard out.guard_host (λ _. Guard.open_session q.epoch) q)
        (λ session_id q'. (ok tt, record q' { session_id = session_id })))

  -- A constructor that throws leaves no router: what it gives is the router, or an error, beside the
  -- guard and the outside as they are left.
  abbrev pub made :
      Outcome (Unit {0}) × SessionRouter W N → Outcome (SessionRouter W N) × (CommandGuard × W)
  made (ok _, r) = (ok r, (r.guard, r.world))
  made (throw e, r) = (throw e, (r.guard, r.world))

  unfoldable pub construct : RouterOptions N → Exec (CommandGuard × W) (SessionRouter W N)
  unfolding assemble enter
  construct options (guard, world) = elim (assemble options guard world) [
    | throw e ↦ (throw e, (guard, world))
    | ok r ↦ made (enter r)
  ]
