-- ===== src/Router/SessionRouter.antt =====
-- packages/bridge/src/router/index.ts: SessionRouter, which serves one peer. Here its state, what it meets
-- outside, and its small methods.
--
-- The outside is an interface over a state of its own, `W`: the clock, the authorization hook, the
-- transport, the ROS adapter, the media plane's router, and JSON and UTF-8. A native ROS value is of type
-- `N`. None of it calls the router again within a call: an event of the media plane and a ROS sample are
-- calls of their own. The command guard, which other peers share, is a field.
pub mod Sending
pub mod Operations
pub mod Publishing
pub mod Entry
pub mod Invariant
pub mod Construction
pub mod Started
pub mod Lifetime
pub mod Ending
pub mod Silence
pub mod Returning
pub mod Termination
pub mod Draining
mod Tests
pub mod Flushing
pub mod Requests
pub mod Handling
pub mod Answering
pub mod Publication
pub mod Calls
use package.ros_webrtc_bridge.Prelude.{
  ℕ, ◌+◌, ◌/◌, Bool, true, false, not, ◌&&◌, ◌||◌, ◌==◌, Option, none, some, List, [], ◌∷◌, ◌++◌,
  ltb, leb, if◌then◌else◌, length, Text, codes, same_text, ite, text_discrete, ℤ,
}
use package.ros_webrtc_bridge.Prelude.Dict.{lookup, put}
use package.ros_webrtc_bridge.Runtime.Outcome.{
  Outcome, ok, throw, or_throw, Reading, at, below_zero, not_finite, max_safe_integer,
  invalid_clock, control_rate, unauthorized, router_closed, message_size, require, ◌>>=◌, ◌>>◌,
}
use package.ros_webrtc_bridge.Runtime.Exec.{Exec, continue}
use package.ros_webrtc_bridge.Runtime.Decimal.{print}
use package.ros_webrtc_bridge.Config.{Direction, ros_to_web, web_to_ros, Delivery, TopicBinding}
use package.ros_webrtc_bridge.Session.Queue.{DeliveryQueue, Bytes}
use package.ros_webrtc_bridge.Session.Guard.{CommandGuard, Host}
use package.ros_webrtc_bridge.Router.Protocol.{Wire, Value, Json}
use package.ros_webrtc_bridge.Router.RequestCache.{RequestCache}

pub data Channel : Type 0 where
  control reliable_data realtime_data : Channel

pub data Operation : Type 0 where
  subscribing publishing : Operation

pub record Codec (N : Type 0) : Type 0 where
  pub encode : N → Outcome Value
  pub decode : Option Value → Outcome N

pub record RouterBinding (N : Type 0) : Type 0 where
  pub binding : TopicBinding
  pub codec : Codec N
  pub schema_id : Text

-- The media plane's router, where the peer has one.
pub record VideoPort (W : Type 0) : Type 0 where
  pub catalog : W → Option Text
  pub operation : Wire → Text → Exec W Wire
  pub revalidate : Exec W (Unit {0})
  pub close : Exec W (Unit {0})

pub record Outside (W N : Type 0) : Type 0 where
  pub clock : W → Reading × W
  pub authorize : TopicBinding → Operation → W → Bool
  pub send : Channel → Bytes → Exec W Bool
  pub ros_subscribe : Text → Text → Exec W (Unit {0})
  pub unsubscribe : Text → Exec W (Unit {0})
  pub ros_publish : Text → N → Exec W (Unit {0})
  pub on_closed : W → W
  pub guard_host : W → Host
  pub video : Option (VideoPort W)
  pub catalog_json : List (RouterBinding N) → Text
  pub stringify : Wire → Text
  pub utf8 : Text → Bytes
  pub parse_json : Bytes → Outcome Json

pub record Subscription (N : Type 0) : Type 0 where
  pub entry : RouterBinding N
  pub ready : Bool
  pub seq : ℕ
  pub next_at : ℕ

pub record Publisher (N : Type 0) : Type 0 where
  pub entry : RouterBinding N
  pub guarded : Bool
  pub seq : ℤ
  pub next_at : ℕ

-- What the constructor fixes.
pub record RouterLimits : Type 0 where
  pub max_handles : ℕ
  pub max_requests : ℕ
  pub request_ttl_ms : ℕ
  pub max_control_rate : ℕ
  pub max_bytes : ℕ

pub record SessionRouter (W N : Type 0) : Type 0 where
  pub limits : RouterLimits
  pub open limits use *
  pub session_id : Text
  pub epoch : Text
  pub entries : List (Text × RouterBinding N)
  pub subscriptions : List (Text × Subscription N)
  pub publishers : List (Text × Publisher N)
  pub queue : DeliveryQueue
  pub cache : RequestCache
  pub guard : CommandGuard
  pub next_id : ℕ
  pub last_time : ℕ
  pub control_window : ℕ
  pub control_count : ℕ
  pub welcomed : Bool
  pub closed : Bool
  pub world : W

abbrev pub control_stream : Text
control_stream = codes "control"

-- `isChannel`
abbrev pub channel_of : Text → Option Channel
channel_of t = ite (text_discrete t (codes "ros.control.v1")) (some control) (
    ite (text_discrete t (codes "ros.reliable.v1")) (some reliable_data)
      (ite (text_discrete t (codes "ros.realtime.v1")) (some realtime_data) none))

-- `dataChannel`
abbrev pub data_channel : Delivery → Channel
data_channel Delivery.reliable = reliable_data
data_channel Delivery.realtime = realtime_data

abbrev pub same_channel : Channel → Channel → Bool
same_channel control control = true
same_channel reliable_data reliable_data = true
same_channel realtime_data realtime_data = true
same_channel _ _ = false

abbrev pub same_direction : Direction → Operation → Bool
same_direction ros_to_web subscribing = true
same_direction web_to_ros publishing = true
same_direction _ _ = false

module _ {W N A : Type 0} where
  -- A call of a part of the router, which writes that part.
  abbrev pub on_world : Exec W A → Exec (SessionRouter W N) A
  on_world m r = ((m r.world).0, record r { world = (m r.world).1 })

  abbrev pub on_queue : Exec DeliveryQueue A → Exec (SessionRouter W N) A
  on_queue m r = ((m r.queue).0, record r { queue = (m r.queue).1 })

  abbrev pub on_cache : Exec RequestCache A → Exec (SessionRouter W N) A
  on_cache m r = ((m r.cache).0, record r { cache = (m r.cache).1 })

  -- The guard's clock and hook are read when it is called.
  abbrev pub on_guard : (W → Host) → (Host → Exec CommandGuard A) → Exec (SessionRouter W N) A
  on_guard host m r =
      ((m (host r.world) r.guard).0, record r { guard = (m (host r.world) r.guard).1 })

module _ {W N : Type 0} where
  unfoldable pub read_time : Reading → Exec (SessionRouter W N) ℕ
  read_time (at value) r =
      if ltb value r.last_time || ltb max_safe_integer (value + r.request_ttl_ms)
      then (throw invalid_clock, r)
      else (ok value, record r { last_time = value })
  read_time below_zero r = (throw invalid_clock, r)
  read_time not_finite r = (throw invalid_clock, r)

  unfoldable pub count_control : ℕ → SessionRouter W N → SessionRouter W N
  count_control window r =
      if window == r.control_window
      then record r { control_count = r.control_count + 1 }
      else record r { control_window = window; control_count = 1 }

  unfoldable pub new_id : Exec (SessionRouter W N) Text
  new_id r =
      (ok (r.session_id ++ b':' ∷ print (r.next_id + 1)), record r { next_id = r.next_id + 1 })

module _ {W N : Type 0} (out : Outside W N) where
  unfoldable pub now : Exec (SessionRouter W N) ℕ
  unfolding read_time
  now r = let (reading, world) = out.clock r.world in read_time reading (record r { world = world })

  unfoldable pub check_rate : ℕ → Exec (SessionRouter W N) (Unit {0})
  unfolding count_control
  check_rate time r =
      let counted : SessionRouter W N = count_control (time / 1000) r in
      (require (leb counted.control_count counted.max_control_rate) control_rate, counted)

  -- `controlRate`
  unfoldable pub limit_control : Exec (SessionRouter W N) (Unit {0})
  unfolding continue now check_rate
  limit_control r = continue (now r) check_rate

  abbrev pub allowed : RouterBinding N → Operation → W → Bool
  allowed entry operation world =
      same_direction entry.binding.direction operation
      && out.authorize entry.binding operation world

  unfoldable pub entry_of : Text → Operation → SessionRouter W N → Outcome (RouterBinding N)
  unfolding lookup
  entry_of name operation r = do
    entry ← or_throw (lookup name r.entries) unauthorized
    require (allowed entry operation r.world) unauthorized
    require (not r.closed) router_closed
    ok entry

  unfoldable pub encode_wire : Wire → ℕ → Outcome Bytes
  encode_wire wire max_bytes =
      let bytes : Bytes = out.utf8 (out.stringify wire) in
      require (leb (length bytes) max_bytes) message_size >> ok bytes
