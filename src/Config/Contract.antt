-- ===== src/Config/Contract.antt =====
-- config/binding.ts: what a topic's configuration that is accepted keeps to.
use package.ros_webrtc_bridge.Prelude.{
  ℕ, ◌≤◌, ◌<◌, ◌≡◌, refl, true, false, Option, none, some, is_some, length, Text, codes, arith,
}
use mathlib.Core.Path.{subst}
use package.ros_webrtc_bridge.Runtime.Outcome.{
  bind_ok, ok, Gives, Gives-then, require, type_unavailable,
}
use package.ros_webrtc_bridge.Config.{
  Direction, Delivery, QueuePolicy, latest, fifo, Durability, RosQos, Rate, Access, TopicBinding,
}
use package.ros_webrtc_bridge.Config.Validation.{
  Yaml, string, quotient, get, read_record, read_string, read_positive, read_integer, choice,
  topic_name,
}
use package.ros_webrtc_bridge.Config.Binding.{
  ConfigOptions, is_ros_type, ros_qos, is_command, parse_access, is_exclusive, is_volatile,
  parse_guard, is_reliable, is_fifo, read_queue, or_name, allowed_keys, directions, deliveries,
  binding,
}
use package.ros_webrtc_bridge.Router.Protocol.{includes}
use package.ros_webrtc_bridge.Session.Guard.Topic.{is_topic}

-- A topic that may be served: messages are kept in order exactly where the delivery is reliable, and only
-- the latest else; a topic with access or a guard takes messages from the Web; a writer is exclusive
-- exactly where its commands are guarded, and what is guarded is not replayed to late readers.
pub record IsSound (b : TopicBinding) : Type 0 where
  pub named : is_topic b.public_name ≡ true
  pub targeted : is_topic b.ros_topic ≡ true
  pub short : length b.ros_topic ≤ 247
  pub ordered : is_fifo b.policy ≡ is_reliable b.delivery
  pub single : is_fifo b.policy ≡ false → b.max_messages ≡ 1
  pub holds : 0 < b.max_messages
  pub paced : 0 < b.max_rate_hz.numerator
  pub deep : 0 < b.ros_qos.depth
  pub accessed : is_some b.access ≡ true → is_command b.direction ≡ true
  pub guarded : is_some b.command_guard ≡ is_exclusive b.access
  pub volatile : is_some b.command_guard ≡ true → is_volatile b.ros_qos.durability ≡ true

topic_name-eq-ok :
    (v : Option Yaml) (t : Text) → topic_name v ≡ ok t → (is_topic t ≡ true) × (length t ≤ 247)
unfolding topic_name read_string
topic_name-eq-ok (some (string s)) t h = ground arith
topic_name-eq-ok _ t h = ground arith

read_positive-eq-ok : (v : Option Yaml) (q : Rate) → read_positive v ≡ ok q → 0 < q.numerator
unfolding read_positive
read_positive-eq-ok (some (Yaml.number (quotient r))) q h = ground arith
read_positive-eq-ok _ q h = ground arith

pub read_integer-eq-ok : (v : Option Yaml) (n : ℕ) → read_integer v ≡ ok n → 0 < n
unfolding read_integer
read_integer-eq-ok v n h =
    let (q, read, h1) = bind_ok (read_positive v) _ n h in
    ground (arith, read_positive-eq-ok v q read)

ros_qos-eq-ok : (v : Option Yaml) (qos : RosQos) → ros_qos v ≡ ok qos → 0 < qos.depth
unfolding ros_qos
ros_qos-eq-ok v qos h = grind (arith, read_integer-eq-ok)

read_queue-eq-ok :
    (v : Option Yaml) (d : Delivery) (policy : QueuePolicy) (n : ℕ)
    → read_queue v d ≡ ok (policy, n)
    → (is_fifo policy ≡ is_reliable d) × (is_fifo policy ≡ false → n ≡ 1) × (0 < n)
unfolding read_queue
read_queue-eq-ok v Delivery.reliable fifo n h =
    (refl, λ e. absurd (cc (e)), grind (arith, read_integer-eq-ok))
read_queue-eq-ok v Delivery.reliable latest n h = absurd (grind (arith))
read_queue-eq-ok v Delivery.realtime fifo n h = absurd (grind (arith))
read_queue-eq-ok v Delivery.realtime latest n h =
    (refl, λ _. grind (arith), grind (arith, read_integer-eq-ok))

parse_access-eq-ok :
    (v : Option Yaml) (d : Direction) (access : Option Access)
    → parse_access v d ≡ ok access
    → is_some access ≡ true
    → is_command d ≡ true
unfolding parse_access
parse_access-eq-ok none d access h there = ground arith
parse_access-eq-ok (some v) d access h there = ground arith

parse_guard-eq-ok :
    (v : Option Yaml) (d : Direction) (durability : Durability) (access : Option Access)
    (guard : Option ℕ)
    → parse_guard v d durability access ≡ ok guard
    → (is_some guard ≡ is_exclusive access) × (is_some guard ≡ true → is_volatile durability ≡ true)
unfolding parse_guard
parse_guard-eq-ok none d durability access guard h = (ground arith, ground arith)
parse_guard-eq-ok (some v) d durability access guard h = (grind arith, grind arith)

given :
    (name : Text) (value : Option Yaml) (options : ConfigOptions)
    → Gives IsSound (binding name value options)
unfolding binding
given name value options = Gives-then IsSound (read_record allowed_keys value) _ λ map _.
    Gives-then IsSound (topic_name (some (string name))) _ λ public_name named.
      Gives-then IsSound (topic_name (or_name name (get (codes "ros_topic") map))) _ λ target _.
        Gives-then IsSound (topic_name (some (string (options.resolve_topic target)))) _
          λ ros_topic targeted.
            Gives-then IsSound (read_string is_ros_type (get (codes "ros_type") map)) _
              λ ros_type _.
                Gives-then IsSound
                  (require (includes options.available_types ros_type) type_unavailable) _
                  λ _ _.
                    Gives-then IsSound (choice directions (get (codes "direction") map)) _
                      λ direction _.
                        Gives-then IsSound (ros_qos (get (codes "ros_qos") map)) _ λ qos deep.
                          Gives-then IsSound (choice deliveries (get (codes "delivery") map)) _
                            λ delivery _.
                              Gives-then IsSound (read_positive (get (codes "max_rate_hz") map)) _
                                λ rate paced.
                                  Gives-then IsSound (read_queue (get (codes "queue") map) delivery)
                                    _
                                    λ (policy, n) queued.
                                      Gives-then IsSound
                                        (parse_access (get (codes "access") map) direction) _
                                        λ access accessed.
                                          Gives-then IsSound
                                            (parse_guard (get (codes "command_guard") map) direction
                                              qos.durability access)
                                            (λ guard. ok (record {
                                              public_name = public_name;
                                              ros_topic = ros_topic;
                                              ros_type = ros_type;
                                              direction = direction;
                                              ros_qos = qos;
                                              delivery = delivery;
                                              max_rate_hz = rate;
                                              policy = policy;
                                              max_messages = n;
                                              access = access;
                                              command_guard = guard;
                                            }))
                                            λ guard guarded.
                                              let (ordered, single, holds) =
                                                read_queue-eq-ok _ delivery policy n queued in
                                              let (same, kept) =
                                                parse_guard-eq-ok _ direction qos.durability access
                                                  guard guarded in
                                              record {
                                                named =
                                                    (topic_name-eq-ok (some (string name))
                                                      public_name named).0;
                                                targeted =
                                                    (topic_name-eq-ok
                                                      (some (string (options.resolve_topic target)))
                                                      ros_topic targeted).0;
                                                short =
                                                    (topic_name-eq-ok
                                                      (some (string (options.resolve_topic target)))
                                                      ros_topic targeted).1;
                                                ordered = ordered;
                                                single = single;
                                                holds = holds;
                                                paced =
                                                    read_positive-eq-ok
                                                      (get (codes "max_rate_hz") map) rate paced;
                                                deep = ros_qos-eq-ok _ qos deep;
                                                accessed =
                                                    parse_access-eq-ok _ direction access accessed;
                                                guarded = same;
                                                volatile = kept;
                                              }

-- A topic's configuration that is accepted is sound.
pub binding-IsSound :
    (name : Text) (value : Option Yaml) (options : ConfigOptions) (b : TopicBinding)
    → binding name value options ≡ ok b
    → IsSound b
binding-IsSound name value options b h = subst (Gives IsSound) h (given name value options)
