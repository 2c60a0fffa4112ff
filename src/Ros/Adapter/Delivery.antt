-- ===== src/Ros/Adapter/Delivery.antt =====
-- ros/adapter.ts: what a sample does to the listeners, and what a publish reaches.
use mathlib.Core.Path.{subst, ap}
use package.ros_webrtc_bridge.Prelude.{
  ◌≡◌, refl, ◌∙◌, true, some, List, [], ◌∷◌, All, Text, text_discrete, arith,
}
use package.ros_webrtc_bridge.Prelude.Dict.{lookup}
use package.ros_webrtc_bridge.Runtime.Outcome.{Outcome, ok, throw, or_throw, type_error}
use package.ros_webrtc_bridge.Runtime.Exec.{Exec, continue, recover}
use package.ros_webrtc_bridge.Config.{RosQos, web_to_ros}
use package.ros_webrtc_bridge.Router.Protocol.{Value}
use package.ros_webrtc_bridge.Ros.Adapter.{
  Callback, running, Registration, Adapter, Outside, is_web_to_ros, is_running, same_direction,
  send_copy, on_world, registration, copy, publish, entity_key,
}
use package.ros_webrtc_bridge.Ros.Adapter.Receiving.{report, deliver, receive}
use package.ros_webrtc_bridge.Ros.Adapter.Leaving.{drop_all}
use package.ros_webrtc_bridge.Ros.Adapter.Invariant.{IsFor, HasEntity, Opened, Sound}
use package.ros_webrtc_bridge.Ros.Adapter.Turns.{
  Modest, after_sample, report-without, all-has, notify-Told,
}

module _ {W N P : Type 0} (out : Outside W N P) (name : Text)
    (act : Callback → N → Exec W (Unit {0})) (drops : Callback → List Callback)
    (modest : Modest out name act drops) where
  deliver-after_sample :
      (native : N) (a : Adapter W N P) (entry : Registration N) (cs : List Callback)
      (o : Outcome Value)
      → lookup name a.registrations ≡ some entry
      → lookup name a.listeners ≡ some cs
      → entry.codec.encode native ≡ o
      → recover (deliver out name native a) (report out)
        ≡ (ok tt, after_sample out name act drops entry cs o a)
  unfolding deliver continue recover drop_all
  deliver-after_sample native a entry cs (throw e) registered listening refused =
      rw (registered, refused) (report-without out name act drops modest e [] a.world a)
  deliver-after_sample native a entry cs (ok wire) registered listening encoded =
      rw (registered, encoded, listening)
        (ap (λ r. recover r (report out))
          (notify-Told out name act drops modest entry wire a cs [] a.world
            (all-has name a cs listening)))

  -- The hypotheses on the outside: a callback does no more to the adapter than to have some listeners
  -- of the name unsubscribe, the ones that `drops` says, and `onError` returns. Then, while the adapter
  -- runs, a sample for a registered name that the codec encodes goes in turn, in the order in which they
  -- subscribed, to the listeners of the name that have not left by a turn before theirs, and to nobody
  -- else. In its turn a listener is called with what the codec decodes; what it throws is reported and
  -- stops none of the others; and if the codec cannot decode, that is reported and the listener is not
  -- called. A sample that the codec does not encode is reported once and goes to nobody. In all cases the
  -- call returns, and the adapter is as it was, but for the listeners that have left.
  pub receive-Isolates :
      (native : N) (a : Adapter W N P) (entry : Registration N) (cs : List Callback)
      → a.state ≡ running
      → lookup name a.registrations ≡ some entry
      → lookup name a.listeners ≡ some cs
      → receive out name native a
        ≡ (ok tt, after_sample out name act drops entry cs (entry.codec.encode native) a)
  unfolding receive
  receive-Isolates native a entry cs run registered listening =
      rw (ap is_running run) (deliver-after_sample native a entry cs _ registered listening refl)

module _ {W N P : Type 0} (out : Outside W N P) (For : P → Text → Text → RosQos → Type 0) where
  -- The publisher that a publish uses.
  pub record Sends (name : Text) (native : N) (a : Adapter W N P) (entry : Registration N)
      : Type 0 where
    pub publisher : P
    pub own : IsFor out For publisher entry
    pub sends :
        publish out name native a
        ≡ continue
            (copy entry native, a)
            (λ normalized. on_world (out.native_publish publisher normalized))

  opened_entry :
      (entries : List (Text × Registration N)) (name : Text) (entry : Registration N)
      (a : Adapter W N P)
      → All (Opened out For a.publishers a.aliases) entries
      → lookup name entries ≡ some entry
      → is_web_to_ros entry.binding.direction ≡ true
      → (p : P) × (lookup (entity_key out entry) a.publishers ≡ some p) × IsFor out For p entry
  unfolding lookup
  opened_entry [] name entry a h found web = absurd (cc (found))
  opened_entry ((n, e) ∷ more) name entry a (h, hs) found web = elim (text_discrete n name) [
    | yes same ↦
        let it : e ≡ entry = ground arith in
        subst
          (λ (x : Registration N).
            (p : P) × (lookup (entity_key out x) a.publishers ≡ some p) × IsFor out For p x)
          it
          (subst (λ b. HasEntity out For b a.publishers a.aliases n e)
            (ap (λ (x : Registration N). is_web_to_ros x.binding.direction) it ∙ web) h)
    | no other ↦ opened_entry more name entry a hs (ground arith) web
  ]

  send_copy-there :
      (o : Outcome N) (key : Text) (p : P) (a : Adapter W N P)
      → lookup key a.publishers ≡ some p
      → continue
          (o, a)
          (λ normalized s.
            continue
              (or_throw (lookup key s.publishers) type_error, s)
              (λ publisher. on_world (out.native_publish publisher normalized)))
        ≡ continue (o, a) (λ normalized. on_world (out.native_publish p normalized))
  unfolding continue
  send_copy-there (throw e) key p a there = refl
  send_copy-there (ok native) key p a there = rw there refl

  -- In a sound adapter that runs, a publish for a registered name of the direction web to ROS copies the
  -- value through the codec, throws what that throws, and else sends the copy once, on a publisher that
  -- was made for the type, the topic and the QoS of that registration: there always is one.
  pub publish-Sends :
      (name : Text) (native : N) (a : Adapter W N P) (entry : Registration N)
      → Sound out For a
      → a.state ≡ running
      → lookup name a.registrations ≡ some entry
      → entry.binding.direction ≡ web_to_ros
      → Sends name native a entry
  unfolding publish continue
  publish-Sends name native a entry s run registered web =
      let (p, there, own) =
        opened_entry a.registrations name entry a (s.ready run).0 registered
          (ap is_web_to_ros web) in
      let granted : registration name web_to_ros a ≡ ok entry =
        grind (arith, ap is_running run, ap (λ d. same_direction d web_to_ros) web) in
      record {
        publisher = p;
        own = own;
        sends =
            ap (λ r. continue (r, a) (send_copy out native)) granted
            ∙ send_copy-there (copy entry native) (entity_key out entry) p a there;
      }
