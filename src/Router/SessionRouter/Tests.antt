-- ===== src/Router/SessionRouter/Tests.antt =====
-- router/index.ts at concrete inputs, and the theorems applied.
use package.ros_webrtc_bridge.Prelude.{
  ℕ, ◌+◌, ◌≡◌, refl, Bool, true, false, none, List, [], ◌∷◌, Text, codes, same_text, if◌then◌else◌,
  text_discrete, arith,
}
use package.ros_webrtc_bridge.Prelude.Dict.{lookup, put, delete}
use package.ros_webrtc_bridge.Runtime.Outcome.{ok, throw, at, callback_error}
use package.ros_webrtc_bridge.Runtime.Decimal.{print}
use package.ros_webrtc_bridge.Config
use package.ros_webrtc_bridge.Config.{Direction, ros_to_web, web_to_ros, TopicBinding}
use package.ros_webrtc_bridge.Session.Validation.{identifier, positive_limit, is_identifier}
use package.ros_webrtc_bridge.Session.Queue
use package.ros_webrtc_bridge.Session.Queue.{Bytes, DeliveryQueue, Stream, register, release}
use package.ros_webrtc_bridge.Session.Guard.{CommandGuard}
use package.ros_webrtc_bridge.Router.Protocol.{Wire, Value, Json, object, text, other}
use package.ros_webrtc_bridge.Router.SessionRouter.{
  Channel, RouterBinding, Outside, Subscription, SessionRouter, control_stream,
}
use package.ros_webrtc_bridge.Router.SessionRouter.Sending.{drain_on, drain, close, no_fuel}
use package.ros_webrtc_bridge.Router.SessionRouter.Entry.{receive, sample, event}
use package.ros_webrtc_bridge.Router.SessionRouter.Invariant.{Respects}
use package.ros_webrtc_bridge.Router.SessionRouter.Construction.{
  RouterOptions, read_entries, assembled, queue_options, new_queue, add_control, construct,
  assemble,
}
use package.ros_webrtc_bridge.Router.SessionRouter.Started.{
  Started, read_entries-Named, assembled-Sound, construct-Started,
}
use package.ros_webrtc_bridge.Router.SessionRouter.Lifetime.{
  J, received, sampled, moved, here, after, reached-Sound,
}
use package.ros_webrtc_bridge.Router.SessionRouter.Ending.{Released, close-Released}
use package.ros_webrtc_bridge.Router.SessionRouter.Silence.{Spent, Silent, close-Silent}
use package.ros_webrtc_bridge.Router.SessionRouter.Returning.{Quiet, Returns, calls-Return}
use package.ros_webrtc_bridge.Router.SessionRouter.Draining.{drain_on-settles}

-- An outside that counts what goes to ROS without permission.
record Net : Type 0 where
  time : ℕ
  permitted : Bool
  sendable : Bool
  heard : List Text
  violations : ℕ

abbrev count : Net → Net
count w = if w.permitted then w else record w { violations = w.violations + 1 }

-- `hello`, or a request with an identifier for the topic `/odom`.
abbrev decoded : Bytes → Json
decoded bytes =
    let rest : List (Text × Value) =
      if same_text bytes (codes "hello")
      then []
      else (codes "id", text (codes "r1")) ∷ (codes "topic", text (codes "/odom")) ∷ [] in
    object ((codes "v", other (codes "1")) ∷ (codes "op", text bytes) ∷ rest)

abbrev net : Outside Net ℕ
net = record {
  clock = λ w. (at w.time, w);
  authorize = λ _ _ w. w.permitted;
  send = λ _ _ w. (ok w.sendable, w);
  ros_subscribe = λ _ _ w. (ok tt, count w);
  unsubscribe = λ id w. (ok tt, record w { heard = id ∷ w.heard });
  ros_publish = λ _ _ w. (ok tt, count w);
  on_closed = λ w. w;
  guard_host = λ w. record { clock = at w.time; authorize = λ _ _ g. (ok true, g) };
  video = none;
  catalog_json = λ _. codes "[]";
  stringify = λ wire. wire.op;
  utf8 = λ t. t;
  parse_json = λ bytes. ok (decoded bytes);
}

abbrev IsClean : Net → Type 0
IsClean w = w.violations ≡ 0

net-Respects : Respects net IsClean
net-Respects = record {
  clock = λ w p. p;
  send = λ _ _ w p. p;
  unsubscribe = λ _ w p. p;
  on_closed = λ w p. p;
  video_operation = λ _ _ _ _ e _. absurd (cc (e));
  video_revalidate = λ _ _ e _. absurd (cc (e));
  video_close = λ _ _ e _. absurd (cc (e));
  ros_subscribe = λ e _ w may p. ground arith;
  ros_publish = λ e _ w may p. ground arith;
}

net-Quiet : Quiet net
net-Quiet = record { unsubscribe = λ _ _. refl; video_close = λ _ _ e. absurd (cc (e)) }

abbrev calm : Net
calm = record { time = 1000; permitted = true; sendable = true; heard = []; violations = 0 }

abbrev odom : RouterBinding ℕ
odom = record {
  binding = record {
    public_name = codes "/odom";
    ros_topic = codes "/odom";
    ros_type = codes "nav_msgs/msg/Odometry";
    direction = ros_to_web;
    ros_qos = record {
      reliability = Config.Reliability.reliable;
      durability = Config.Durability.volatile;
      depth = 1;
    };
    delivery = Config.Delivery.reliable;
    max_rate_hz = record { numerator = 10; denominator = 1 };
    policy = Config.QueuePolicy.latest;
    max_messages = 1;
    access = none;
    command_guard = none;
  };
  codec = record { encode = λ n. ok (other (print n)); decode = λ _. throw callback_error };
  schema_id = codes "s1";
}

abbrev options : RouterOptions ℕ
options = record {
  is_configured = λ _. true;
  max_message_bytes = 64;
  max_peer_queue_bytes = 256;
  bindings = odom ∷ [];
  epoch = codes "e1";
  max_handles = 4;
  max_requests = 4;
  request_ttl_ms = 1000;
  max_control_rate = 8;
}

abbrev fresh_guard : CommandGuard
fresh_guard = record {
  options = record { max_sessions = 2; max_handles = 4; lease_ms = 250 };
  prefix = codes "u";
  next_id = 0;
  last_time = 5;
  sessions = [];
  handles = [];
  closed = false;
}

abbrev empty : DeliveryQueue
empty = record { options = queue_options options; streams = []; bytes = 0; dropped = 0 }

abbrev control_queue : Stream
control_queue = record {
  policy = Queue.Policy.reliable;
  max_messages = 4;
  messages = [];
  stopped = false;
}

abbrev queue : DeliveryQueue
queue = record empty { streams = (control_stream, control_queue) ∷ [] }

abbrev router : SessionRouter Net ℕ
router = assembled options ((codes "/odom", odom) ∷ []) queue fresh_guard calm

assembles : assemble options fresh_guard calm ≡ ok router
unfolding assemble Queue.init identifier is_identifier positive_limit register lookup put
    text_discrete
assembles = refl

construct-Started_example : Started net net-Respects (construct net options (fresh_guard, calm))
construct-Started_example = construct-Started net net-Respects options fresh_guard calm refl

program : Unit {0}
unfolding assemble Queue.init identifier is_identifier positive_limit register lookup put delete
    text_discrete new_queue add_control read_entries
program = tt

router-Sound : J net-Respects router
unfolding program
router-Sound =
    assembled-Sound IsClean options fresh_guard calm ((codes "/odom", odom) ∷ []) empty queue refl
      (read_entries-Named (λ _. true) (odom ∷ []) [] ((codes "/odom", odom) ∷ [])
        (λ k e found. absurd (cc (found))) refl)
      refl refl

-- The peer says hello and subscribes; then the permission is taken away, and a sample arrives.
abbrev greeted : SessionRouter Net ℕ
greeted = (receive net (codes "ros.control.v1") (codes "hello") router).1

abbrev subscribed : SessionRouter Net ℕ
subscribed = (receive net (codes "ros.control.v1") (codes "subscribe") greeted).1

abbrev forbidden : SessionRouter Net ℕ
forbidden = record subscribed { world = record calm { permitted = false } }

reached-Sound_example : J net-Respects (sample net (codes ":1") 7 forbidden).1
reached-Sound_example =
    reached-Sound net-Respects router (sample net (codes ":1") 7 forbidden).1 router-Sound (
      after
        (after
          (after (after here (received (codes "ros.control.v1") (codes "hello")))
            (received (codes "ros.control.v1") (codes "subscribe")))
          (moved (record calm { permitted = false }) refl))
        (sampled (codes ":1") 7))

-- A router with two subscriptions that are not permitted any more.
abbrev listening : Subscription ℕ
listening = record { entry = odom; ready = true; seq = 3; next_at = 0 }

abbrev one_stream : Stream
one_stream = record {
  policy = Queue.Policy.latest;
  max_messages = 1;
  messages = (1 ∷ []) ∷ [];
  stopped = false;
}

abbrev busy : SessionRouter Net ℕ
busy = record router {
  subscriptions = (codes ":1", listening) ∷ (codes ":2", listening) ∷ [];
  queue = record queue {
    streams =
        (control_stream, control_queue) ∷ (codes ":1", one_stream) ∷ (codes ":2", one_stream) ∷ [];
    bytes = 2;
  };
  world = record calm { permitted = false };
}

drain_on-settles_example :
    drain_on net no_fuel 9 (codes ":1") Channel.reliable_data busy
    ≡ drain net (codes ":1") Channel.reliable_data busy
unfolding program
drain_on-settles_example =
    drain_on-settles net no_fuel 9 (codes ":1") Channel.reliable_data busy (omega arith)

close-Released_example : Released net busy (close net busy).1
close-Released_example = close-Released net busy refl (λ _ e. absurd (cc (e)))

-- After the close a sample comes for a listener that was there, and a message.
close-Silent_example :
    let late =
      (receive net
        (codes "ros.control.v1")
        (codes "hello")
        (sample net (codes ":1") 7 (close net busy).1).1).1 in
    Spent net late × Silent net late
close-Silent_example =
    close-Silent net {P = IsClean} busy _ refl (λ _ e. absurd (cc (e)))
      (after (after here (sampled (codes ":1") 7))
        (received (codes "ros.control.v1") (codes "hello")))

calls-Return_example :
    ((label : Text) (raw : Bytes) → Returns (receive net label raw) router)
    × ((id : Text) (native : ℕ) → Returns (sample net id native) router)
    × ((wire : Wire) → Returns (event net wire) router)
calls-Return_example = calls-Return net net-Quiet net-Respects router router-Sound
