-- ===== src/Ros/Adapter/Tests.antt =====
-- ros/adapter.ts at a concrete backend, and the theorems applied.
use mathlib.Core.Path.{ap, subst}
use package.ros_webrtc_bridge.Prelude.{
  ℕ, zero, suc, ◌+◌, ◌≡◌, refl, Option, none, some, List, [], ◌∷◌, ◌++◌, length, Text, codes,
  text_discrete, arith,
}
use package.ros_webrtc_bridge.Prelude.Dict.{lookup, put}
use package.ros_webrtc_bridge.Runtime.Outcome.{
  Outcome, ok, throw, callback_error, ros_binding_denied, ros_adapter_not_running,
  duplicate_ros_registration,
}
use package.ros_webrtc_bridge.Runtime.Exec.{Exec, continue, recover}
use package.ros_webrtc_bridge.Config
use package.ros_webrtc_bridge.Config.{Direction, ros_to_web, web_to_ros, TopicBinding, RosQos}
use package.ros_webrtc_bridge.Router.Protocol.{Value, other}
use package.ros_webrtc_bridge.Ros.Adapter.{
  Callback, new, running, Registration, Adapter, Outside, remove, register_all, construct,
  registration, subscribe, unsubscribe, entity_key, close, open_all, open_and_spin, abandon, start,
  publish, on_world,
}
use package.ros_webrtc_bridge.Ros.Adapter.Receiving.{
  notify_one, sample_for, notify, deliver, receive, receive_all, native_sample,
}
use package.ros_webrtc_bridge.Ros.Adapter.Invariant.{
  Sound, Documented, started, subscribed, published, moved, still, also,
}
use package.ros_webrtc_bridge.Ros.Adapter.Lifetime.{here, after, acted, constructed-Sound}
use package.ros_webrtc_bridge.Ros.Adapter.Delivery.{Sends, receive-Isolates, publish-Sends}
use package.ros_webrtc_bridge.Ros.Adapter.Leaving.{drop_all}
use package.ros_webrtc_bridge.Ros.Adapter.Turns.{Modest, after_sample}

program : Unit {0}
unfolding notify_one sample_for lookup put text_discrete continue recover remove register_all
    construct registration subscribe unsubscribe entity_key close open_all open_and_spin abandon
    start publish notify deliver receive receive_all native_sample drop_all
program = tt

-- A native publisher knows what it was made for.
record Native : Type 0 where
  type : Text
  topic : Text
  qos : RosQos

-- What was published and on which topic, what the listeners were given, and what was reported.
record Log : Type 0 where
  made : ℕ
  sent : List (Text × ℕ)
  heard : List (Callback × ℕ)
  reported : ℕ

abbrev quiet_log : Log
quiet_log = record { made = 0; sent = []; heard = []; reported = 0 }

-- Listener 2 throws; the others keep what they are given.
abbrev act : Callback → ℕ → Exec Log (Unit {0})
act (suc (suc zero)) n w = (throw callback_error, w)
act c n w = (ok tt, record w { heard = w.heard ++ (c, n) ∷ [] })

abbrev reliability_code : Config.Reliability → ℕ
reliability_code Config.Reliability.reliable = 0
reliability_code Config.Reliability.best_effort = 1

abbrev durability_code : Config.Durability → ℕ
durability_code Config.Durability.volatile = 0
durability_code Config.Durability.transient_local = 1

-- A text that tells the values apart: the lengths come first.
abbrev keyed : Text → Text → ℕ → Config.Reliability → Config.Durability → Text
keyed topic type depth r d =
    depth ∷ reliability_code r ∷ durability_code d ∷ length topic ∷ (topic ++ type)

abbrev out : Outside Log ℕ Native
out = record {
  create_publisher = λ type topic qos w.
      (ok (record { type = type; topic = topic; qos = qos }), record w { made = w.made + 1 });
  create_subscription = λ type topic qos key w. (ok tt, record w { made = w.made + 1 });
  native_publish = λ p n w. (ok tt, record w { sent = w.sent ++ (p.topic, n) ∷ [] });
  spin = λ w. (ok tt, w);
  close_backend = λ w. (ok tt, w);
  on_error = λ e w. (ok tt, record w { reported = w.reported + 1 });
  call = λ c n a. on_world (act c n) a;
  stringify = keyed;
}

-- A codec that refuses zero.
abbrev encode : ℕ → Outcome Value
encode zero = throw callback_error
encode (suc n) = ok (other (suc n ∷ []))

abbrev decode : Option Value → Outcome ℕ
decode (some (other (n ∷ []))) = ok n
decode _ = throw callback_error

abbrev entry : Text → Text → Direction → Registration ℕ
entry name topic direction = record {
  binding = record {
    public_name = name;
    ros_topic = topic;
    ros_type = codes "std_msgs/msg/Int32";
    direction = direction;
    ros_qos = record {
      reliability = Config.Reliability.reliable;
      durability = Config.Durability.volatile;
      depth = 10;
    };
    delivery = Config.Delivery.reliable;
    max_rate_hz = record { numerator = 10; denominator = 1 };
    policy = Config.QueuePolicy.fifo;
    max_messages = 8;
    access = none;
    command_guard = none;
  };
  codec = record { encode = encode; decode = decode };
}

-- Two names for one topic in each direction.
abbrev registry : List (Registration ℕ)
registry =
    entry (codes "/in") (codes "/cmd") web_to_ros
    ∷ entry (codes "/in2") (codes "/cmd") web_to_ros
    ∷ entry (codes "/out") (codes "/odom") ros_to_web
    ∷ entry (codes "/out2") (codes "/odom") ros_to_web
    ∷ []

abbrev MadeFor : Native → Text → Text → RosQos → Type 0
MadeFor p type topic qos = p ≡ record { type = type; topic = topic; qos = qos }

abbrev registered : List (Text × Registration ℕ)
registered =
    (codes "/in", entry (codes "/in") (codes "/cmd") web_to_ros)
    ∷ (codes "/in2", entry (codes "/in2") (codes "/cmd") web_to_ros)
    ∷ (codes "/out", entry (codes "/out") (codes "/odom") ros_to_web)
    ∷ (codes "/out2", entry (codes "/out2") (codes "/odom") ros_to_web)
    ∷ []

abbrev built : Adapter Log ℕ Native
built = record {
  registrations = registered;
  listeners =
      (codes "/in", []) ∷ (codes "/in2", []) ∷ (codes "/out", []) ∷ (codes "/out2", []) ∷ [];
  publishers = [];
  aliases = [];
  state = new;
  world = quiet_log;
}

constructed : construct registry quiet_log ≡ ok built
unfolding program
constructed = refl

twice :
    construct {P = Native} (entry (codes "/in") (codes "/a") web_to_ros ∷ registry) quiet_log
    ≡ throw duplicate_ros_registration
unfolding program
twice = refl

append-parts : (t t' n n' : Text) → length t ≡ length t' → t ++ n ≡ t' ++ n' → (t ≡ t') × (n ≡ n')
append-parts [] [] n n' l e = (refl, e)
append-parts [] (c ∷ t') n n' l e = absurd (omega (arith, l))
append-parts (c ∷ t) [] n n' l e = absurd (omega (arith, l))
append-parts (c ∷ t) (c' ∷ t') n n' l e =
    let (same, rest) = append-parts t t' n n' (omega (arith, l)) (ground arith) in
    (ground arith, rest)

reliability_code_lem :
    (r r' : Config.Reliability) → reliability_code r ≡ reliability_code r' → r ≡ r'
reliability_code_lem r r' h = ground arith

durability_code_lem : (u u' : Config.Durability) → durability_code u ≡ durability_code u' → u ≡ u'
durability_code_lem u u' h = ground arith

documented : Documented out MadeFor
documented = record {
  creates = λ type topic qos p w w' h. ground arith;
  injective = λ {t} {t'} {n} {n'} {d} {d'} {r} {r'} {u} {u'} h.
      let (topic, type) = append-parts t t' n n' (ground arith) (ground arith) in
      (
        topic,
        type,
        ground arith,
        reliability_code_lem r r' (ground arith),
        durability_code_lem u u' (ground arith),
      );
  calls = λ c native a. also still (moved (act c native a.world).1);
}

abbrev key_of : Text → Text
key_of topic =
    keyed topic (codes "std_msgs/msg/Int32") 10 Config.Reliability.reliable
      Config.Durability.volatile

-- The adapter after its start, with three listeners of `/out`, of which the second throws.
abbrev begun : Adapter Log ℕ Native
begun = record built {
  publishers =
      (
        key_of (codes "/cmd"),
        record {
          type = codes "std_msgs/msg/Int32";
          topic = codes "/cmd";
          qos = (entry [] [] web_to_ros).binding.ros_qos;
        },
      )
      ∷ [];
  aliases = (key_of (codes "/odom"), codes "/out" ∷ codes "/out2" ∷ []) ∷ [];
  state = running;
  world = record quiet_log { made = 2 };
}

-- Four registrations share two entities.
begins : start out built ≡ (ok tt, begun)
unfolding program
begins = refl

abbrev listening : Adapter Log ℕ Native
listening = record begun {
  listeners =
      (codes "/in", [])
      ∷ (codes "/in2", [])
      ∷ (codes "/out", 1 ∷ 2 ∷ 3 ∷ [])
      ∷ (codes "/out2", [])
      ∷ [];
}

listens :
    (subscribe (codes "/out") 3 (subscribe (codes "/out") 2 (subscribe (codes "/out") 1 begun).1).1)
    ≡ (ok tt, listening)
unfolding program
listens = refl

-- The second listener's failure is reported, and the others have the sample.
delivers :
    (native_sample out (key_of (codes "/odom")) 5 listening).1.world
    ≡ record { made = 2; sent = []; heard = (1, 5) ∷ (3, 5) ∷ []; reported = 1 }
unfolding program
delivers = refl

-- The second name of a topic uses the one publisher; what the codec refuses, and the other direction, is
-- not sent; and after the close nothing is.
sends :
    ((publish out (codes "/in2") 4 listening).1.world.sent ≡ (codes "/cmd", 4) ∷ [])
    × ((publish out (codes "/in") 0 listening).0 ≡ throw callback_error)
    × ((publish out (codes "/out") 4 listening).0 ≡ throw ros_binding_denied)
    × ((publish out (codes "/in") 4 (close out listening).1).0 ≡ throw ros_adapter_not_running)
    × ((receive out (codes "/out") 5 (close out listening).1).1.world.heard ≡ [])
unfolding program
sends = (refl, refl, refl, refl, refl)

-- A listener that goes is not given the sample.
leaves :
    (receive out (codes "/out") 5 (unsubscribe (codes "/out") 1 listening)).1.world.heard
    ≡ (3, 5) ∷ []
unfolding program
leaves = refl

abbrev in2 : Registration ℕ
in2 = entry (codes "/in2") (codes "/cmd") web_to_ros

constructed-Sound_example :
    Sound out MadeFor
      (publish out (codes "/in") 4 (subscribe (codes "/out") 1 (start out built).1).1).1
constructed-Sound_example =
    constructed-Sound out MadeFor documented registry quiet_log built _ constructed (
      after (after (after here (acted started)) (acted (subscribed (codes "/out") 1)))
        (acted (published (codes "/in") 4)))

begun_sound : Sound out MadeFor begun
begun_sound = subst (Sound out MadeFor) (ap (λ r. r.1) begins) (
    constructed-Sound out MadeFor documented registry quiet_log built _ constructed
      (after here (acted started)))

begun_facts :
    (begun.state ≡ running)
    × (lookup (codes "/in2") registered ≡ some in2)
    × (lookup (codes "/out") registered ≡ some (entry (codes "/out") (codes "/odom") ros_to_web))
    × (lookup (codes "/out") listening.listeners ≡ some (1 ∷ 2 ∷ 3 ∷ []))
unfolding program
begun_facts = (refl, refl, refl, refl)

publish-Sends_example : Sends out MadeFor (codes "/in2") 4 begun in2
publish-Sends_example =
    publish-Sends out MadeFor (codes "/in2") 4 begun in2 begun_sound begun_facts.0 begun_facts.1
      refl

-- Listener 1 has listener 3 unsubscribe.
abbrev drops : Callback → List Callback
drops (suc zero) = 3 ∷ []
drops c = []

abbrev out_leaving : Outside Log ℕ Native
out_leaving = record out {
  call = λ c n a. (
    (act c n a.world).0,
    drop_all (codes "/out") (drops c) (record a { world = (act c n a.world).1 }),
  );
}

modest : Modest out_leaving (codes "/out") act drops
modest = record { calls = λ c native a. refl; reports = λ e w. refl }

receive-Isolates_example : receive out_leaving (codes "/out") 5 listening ≡ (
  ok tt,
  after_sample out_leaving
      (codes "/out")
      act
      drops
      (entry (codes "/out") (codes "/odom") ros_to_web)
      (1 ∷ 2 ∷ 3 ∷ [])
      (ok (other (5 ∷ [])))
      listening,
)
receive-Isolates_example =
    receive-Isolates out_leaving (codes "/out") act drops modest 5 listening
      (entry (codes "/out") (codes "/odom") ros_to_web) (1 ∷ 2 ∷ 3 ∷ []) refl begun_facts.2
      begun_facts.3

-- So the third is not told, and is no listener any more.
left_out :
    ((receive out_leaving (codes "/out") 5 listening).1.world
      ≡ record { made = 2; sent = []; heard = (1, 5) ∷ []; reported = 1 })
    × (lookup (codes "/out") (receive out_leaving (codes "/out") 5 listening).1.listeners
        ≡ some (1 ∷ 2 ∷ []))
unfolding program
left_out = (refl, refl)
