-- ===== src/Config/Deployment.antt =====
-- config/index.ts: what a configuration that is accepted keeps to.
use package.ros_webrtc_bridge.Prelude.{
  ◌≤◌, ◌<◌, ◌≡◌, refl, sym, true, not, ◌||◌, ◌==◌, Option, some, List, ◌∷◌, ltb, length, Text,
  codes, arith, inl, inr,
}
use mathlib.Core.Path.{subst}
use mathlib.Core.List.{Memᴰ}
use mathlib.Core.List.Memᴰ
use package.ros_webrtc_bridge.Runtime.Outcome.{
  ok, Gives, Gives-then, require, unsupported_version, topic_count,
}
use package.ros_webrtc_bridge.Config.{TopicBinding}
use package.ros_webrtc_bridge.Config.Validation.{
  Yaml, Members, empty, member, get, read_record, read_string, read_integer,
}
use package.ros_webrtc_bridge.Config.Binding.{ConfigOptions, binding, is_command}
use package.ros_webrtc_bridge.Config.Outputs.{
  output_contract, check_outputs, check_outputs-consistent,
}
use package.ros_webrtc_bridge.Config.Contract.{IsSound, binding-IsSound, read_integer-eq-ok}
use package.ros_webrtc_bridge.Config.Bridge.{
  YamlLibrary, BridgeLimits, BridgeConfig, read_document, read_map, or_number, is_version,
  is_robot_id, count, parse_limits, bind_all, top_keys, parse_bridge_config,
}

-- What may be deployed: at least one topic, each sound, those to the same ROS topic with one contract,
-- and limits under which a message of the greatest size fits the queue of a peer and a channel.
pub record IsDeployable (c : BridgeConfig) : Type 0 where
  pub served : 0 < length c.topics
  pub each : (b : TopicBinding) → Memᴰ b c.topics → IsSound b
  pub consistent :
      (a b : TopicBinding)
      → Memᴰ a c.topics
      → Memᴰ b c.topics
      → is_command a.direction ≡ true
      → is_command b.direction ≡ true
      → a.ros_topic ≡ b.ros_topic
      → output_contract a ≡ output_contract b
  pub sized : 0 < c.limits.max_message_bytes
  pub bounded : c.limits.max_message_bytes ≤ 16384
  pub queued : c.limits.max_message_bytes ≤ c.limits.max_peer_queue_bytes
  pub buffered : c.limits.max_message_bytes ≤ c.limits.max_channel_buffered_bytes

parse_limits-eq-ok :
    (v : Option Yaml) (l : BridgeLimits)
    → parse_limits v ≡ ok l
    → (0 < l.max_message_bytes)
      × (l.max_message_bytes ≤ 16384)
      × (l.max_message_bytes ≤ l.max_peer_queue_bytes)
      × (l.max_message_bytes ≤ l.max_channel_buffered_bytes)
unfolding parse_limits
parse_limits-eq-ok v l h =
    (grind (arith, read_integer-eq-ok), grind arith, grind arith, grind arith)

-- Every topic read is sound, and there are as many as entries.
abbrev Read : Members → List TopicBinding → Type 0
Read entries topics =
    ((b : TopicBinding) → Memᴰ b topics → IsSound b) × (length topics ≡ count entries)

bind_all-Gives :
    (options : ConfigOptions) (entries : Members) → Gives (Read entries) (bind_all options entries)
unfolding bind_all
bind_all-Gives options empty = (λ b m. absurd (Memᴰ.not-nil m), refl)
bind_all-Gives options (member name value rest) =
    Gives-then (Read (member name value rest)) (binding name (some value) options) _ λ topic bound.
      Gives-then (Read (member name value rest)) (bind_all options rest)
        (λ topics. ok (topic ∷ topics))
        λ topics found.
          let (each, counted) = subst (Gives (Read rest)) found (bind_all-Gives options rest) in
          (
            λ b m. elim (Memᴰ.cases_cons m) [
              | inl here ↦
                  subst IsSound (sym here) (binding-IsSound name (some value) options topic bound)
              | inr there ↦ each b there
            ],
            omega (arith, counted),
          )

parse_bridge_config-Gives :
    (library : YamlLibrary) (source : Text) (options : ConfigOptions)
    → Gives IsDeployable (parse_bridge_config library source options)
unfolding parse_bridge_config
parse_bridge_config-Gives library source options =
    Gives-then IsDeployable (read_integer (or_number options.max_config_bytes 1048576)) _
      λ max_bytes _.
        Gives-then IsDeployable (read_integer (or_number options.max_topics 256)) _ λ max_topics _.
          Gives-then IsDeployable (read_document library source max_bytes) _ λ document _.
            Gives-then IsDeployable (read_record top_keys (some document)) _ λ fields _.
              Gives-then IsDeployable
                (require (is_version (get (codes "version") fields)) unsupported_version) _
                λ _ _.
                  Gives-then IsDeployable (read_string is_robot_id (get (codes "robot_id") fields))
                    _
                    λ robot_id _.
                      Gives-then IsDeployable (parse_limits (get (codes "limits") fields)) _
                        λ limits limited.
                          Gives-then IsDeployable (read_map (get (codes "topics") fields)) _
                            λ entries _.
                              Gives-then IsDeployable
                                (require
                                  (not (count entries == 0 || ltb max_topics (count entries)))
                                  topic_count)
                                _
                                λ _ some_there.
                                  Gives-then IsDeployable (bind_all options entries) _
                                    λ topics found.
                                      Gives-then IsDeployable (check_outputs topics)
                                        (λ _. ok (record {
                                          robot_id = robot_id;
                                          limits = limits;
                                          topics = topics;
                                        }))
                                        λ _ passed.
                                          let (each, counted) =
                                            subst (Gives (Read entries)) found
                                              (bind_all-Gives options entries) in
                                          let (sized, bounded, queued, buffered) =
                                            parse_limits-eq-ok (get (codes "limits") fields) limits
                                              limited in
                                          record {
                                            served = ground arith;
                                            each = each;
                                            consistent = λ a b m n.
                                                check_outputs-consistent topics a b passed m n;
                                            sized = sized;
                                            bounded = bounded;
                                            queued = queued;
                                            buffered = buffered;
                                          }

-- A configuration that is accepted may be deployed: it has a topic, each topic is sound, two topics that
-- take messages from the Web to the same ROS topic have one contract, and the limits admit a message of
-- the greatest size, which is at most 16384 bytes, in the queue of a peer and in a channel.
pub parse_bridge_config-IsDeployable :
    (library : YamlLibrary) (source : Text) (options : ConfigOptions) (c : BridgeConfig)
    → parse_bridge_config library source options ≡ ok c
    → IsDeployable c
parse_bridge_config-IsDeployable library source options c h =
    subst (Gives IsDeployable) h (parse_bridge_config-Gives library source options)
