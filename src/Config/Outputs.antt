-- ===== src/Config/Outputs.antt =====
-- config/binding.ts: `checkOutputs`, and that the topics it passes agree on what they write to.
use package.ros_webrtc_bridge.Prelude.{
  ℕ, ◌≡◌, refl, sym, ap, ◌∙◌, Bool, true, false, ◌&&◌, ◌==◌, Option, none, some, List, [], ◌∷◌,
  Text, same_text, if◌then◌else◌, text_discrete, arith, inl, inr, ◌⊎◌, Bool-cases,
}
use mathlib.Core.Path.{subst}
use mathlib.Core.List.{Memᴰ}
use mathlib.Core.List.Memᴰ
use package.ros_webrtc_bridge.Prelude.Dict.{lookup, put, lookup-put_self, lookup-put_ne}
use package.ros_webrtc_bridge.Runtime.Outcome.{Outcome, ok, require, ◌>>◌, conflicting_output}
use package.ros_webrtc_bridge.Config.{
  Delivery, QueuePolicy, latest, fifo, Reliability, Durability, RosQos, Rate, Access, TopicBinding,
}
use package.ros_webrtc_bridge.Config.Binding.{is_command, is_reliable, is_fifo, is_volatile, agrees}

-- What `outputContract` prints: equal texts are equal contracts, since JSON tells its values apart.
pub record OutputContract : Type 0 where
  pub ros_type : Text
  pub ros_qos : RosQos
  pub access : Option Access
  pub command_guard : Option ℕ
  pub max_rate_hz : Rate
  pub delivery : Delivery
  pub policy : QueuePolicy
  pub max_messages : ℕ

abbrev pub output_contract : TopicBinding → OutputContract
output_contract t = record {
  ros_type = t.ros_type;
  ros_qos = t.ros_qos;
  access = t.access;
  command_guard = t.command_guard;
  max_rate_hz = t.max_rate_hz;
  delivery = t.delivery;
  policy = t.policy;
  max_messages = t.max_messages;
}

abbrev pub best_effort : Reliability → Bool
best_effort Reliability.reliable = false
best_effort Reliability.best_effort = true

abbrev pub same_qos : RosQos → RosQos → Bool
same_qos a b =
    agrees (best_effort a.reliability) (best_effort b.reliability)
    && agrees (is_volatile a.durability) (is_volatile b.durability)
    && a.depth == b.depth

abbrev pub same_access : Option Access → Option Access → Bool
same_access none none = true
same_access (some a) (some b) =
    same_text a.publish_scope b.publish_scope && agrees a.exclusive_writer b.exclusive_writer
same_access _ _ = false

abbrev pub same_guard : Option ℕ → Option ℕ → Bool
same_guard none none = true
same_guard (some m) (some n) = m == n
same_guard _ _ = false

abbrev pub same_rate : Rate → Rate → Bool
same_rate a b = a.numerator == b.numerator && a.denominator == b.denominator

unfoldable pub same_contract : OutputContract → OutputContract → Bool
same_contract a b =
    same_text a.ros_type b.ros_type
    && same_qos a.ros_qos b.ros_qos
    && same_access a.access b.access
    && same_guard a.command_guard b.command_guard
    && same_rate a.max_rate_hz b.max_rate_hz
    && agrees (is_reliable a.delivery) (is_reliable b.delivery)
    && agrees (is_fifo a.policy) (is_fifo b.policy)
    && a.max_messages == b.max_messages

abbrev pub no_conflict : Option TopicBinding → TopicBinding → Bool
no_conflict none topic = true
no_conflict (some previous) topic = same_contract (output_contract previous) (output_contract topic)

-- The loop of `checkOutputs`: `outputs` is the map so far.
unfoldable pub check_on : List TopicBinding → List (Text × TopicBinding) → Outcome (Unit {0})
unfolding lookup same_contract
check_on [] outputs = ok tt
check_on (topic ∷ rest) outputs =
    let skipped = check_on rest outputs in
    let entered = check_on rest (put topic.ros_topic topic outputs) in
    if is_command topic.direction
    then require (no_conflict (lookup topic.ros_topic outputs) topic) conflicting_output >> entered
    else skipped

unfoldable pub check_outputs : List TopicBinding → Outcome (Unit {0})
unfolding check_on
check_outputs topics = check_on topics []

effort-eq : (a b : Reliability) → agrees (best_effort a) (best_effort b) ≡ true → a ≡ b
effort-eq Reliability.reliable Reliability.reliable h = refl
effort-eq Reliability.reliable Reliability.best_effort h = absurd (cc (h))
effort-eq Reliability.best_effort Reliability.reliable h = absurd (cc (h))
effort-eq Reliability.best_effort Reliability.best_effort h = refl

volatile-eq : (a b : Durability) → agrees (is_volatile a) (is_volatile b) ≡ true → a ≡ b
volatile-eq Durability.volatile Durability.volatile h = refl
volatile-eq Durability.volatile Durability.transient_local h = absurd (cc (h))
volatile-eq Durability.transient_local Durability.volatile h = absurd (cc (h))
volatile-eq Durability.transient_local Durability.transient_local h = refl

delivery-eq : (a b : Delivery) → agrees (is_reliable a) (is_reliable b) ≡ true → a ≡ b
delivery-eq Delivery.reliable Delivery.reliable h = refl
delivery-eq Delivery.reliable Delivery.realtime h = absurd (cc (h))
delivery-eq Delivery.realtime Delivery.reliable h = absurd (cc (h))
delivery-eq Delivery.realtime Delivery.realtime h = refl

fifo-eq : (a b : QueuePolicy) → agrees (is_fifo a) (is_fifo b) ≡ true → a ≡ b
fifo-eq fifo fifo h = refl
fifo-eq fifo latest h = absurd (cc (h))
fifo-eq latest fifo h = absurd (cc (h))
fifo-eq latest latest h = refl

bool-eq : (a b : Bool) → agrees a b ≡ true → a ≡ b
bool-eq true b h = sym h
bool-eq false true h = absurd (cc (h))
bool-eq false false h = refl

same_qos-eq : (a b : RosQos) → same_qos a b ≡ true → a ≡ b
same_qos-eq a b h = grind (arith, effort-eq, volatile-eq)

same_access-eq : (a b : Option Access) → same_access a b ≡ true → a ≡ b
same_access-eq none none h = refl
same_access-eq (some a) (some b) h = grind (arith, bool-eq)
same_access-eq none (some b) h = ground arith
same_access-eq (some a) none h = ground arith

same_guard-eq : (a b : Option ℕ) → same_guard a b ≡ true → a ≡ b
same_guard-eq none none h = refl
same_guard-eq (some a) (some b) h = ground arith
same_guard-eq none (some b) h = ground arith
same_guard-eq (some a) none h = ground arith

same_rate-eq : (a b : Rate) → same_rate a b ≡ true → a ≡ b
same_rate-eq a b h = ground arith

both : (p q : Bool) → (p && q) ≡ true → (p ≡ true) × (q ≡ true)
both p q h = (ground arith, ground arith)

same_contract-eq : (a b : OutputContract) → same_contract a b ≡ true → a ≡ b
unfolding same_contract
same_contract-eq a b h =
    let (h1, most) = both _ (a.max_messages == b.max_messages) h in
    let e1 : a.max_messages ≡ b.max_messages = ground arith in
    let (h2, policies) = both _ (agrees (is_fifo a.policy) (is_fifo b.policy)) h1 in
    let e2 = fifo-eq a.policy b.policy policies in
    let (h3, deliveries) = both _ (agrees (is_reliable a.delivery) (is_reliable b.delivery)) h2 in
    let e3 = delivery-eq a.delivery b.delivery deliveries in
    let (h4, rates) = both _ (same_rate a.max_rate_hz b.max_rate_hz) h3 in
    let e4 = same_rate-eq a.max_rate_hz b.max_rate_hz rates in
    let (h5, guards) = both _ (same_guard a.command_guard b.command_guard) h4 in
    let e5 = same_guard-eq a.command_guard b.command_guard guards in
    let (h6, accesses) = both _ (same_access a.access b.access) h5 in
    let e6 = same_access-eq a.access b.access accesses in
    let (types, qualities) =
      both (same_text a.ros_type b.ros_type) (same_qos a.ros_qos b.ros_qos) h6 in
    let e7 = same_qos-eq a.ros_qos b.ros_qos qualities in
    let e8 : a.ros_type ≡ b.ros_type = ground arith in cc (e1, e2, e3, e4, e5, e6, e7, e8)

-- What it means that the loop passes a topic.
check_on-cons :
    (topic : TopicBinding) (rest : List TopicBinding) (outputs : List (Text × TopicBinding))
    → check_on (topic ∷ rest) outputs ≡ ok tt
    → ((is_command topic.direction ≡ true)
        × (no_conflict (lookup topic.ros_topic outputs) topic ≡ true)
        × (check_on rest (put topic.ros_topic topic outputs) ≡ ok tt))
      ⊎ ((is_command topic.direction ≡ false) × (check_on rest outputs ≡ ok tt))
unfolding check_on
check_on-cons topic rest outputs h = elim (Bool-cases (is_command topic.direction)) [
  | inl taken ↦ inl (taken, ground arith, ground arith)
  | inr passed ↦ inr (passed, ground arith)
]

-- What the loop knows of a topic ahead: it agrees with what stands for its output already.
check_on-agrees :
    (topics : List TopicBinding) (outputs : List (Text × TopicBinding)) (p b : TopicBinding)
    → check_on topics outputs ≡ ok tt
    → Memᴰ b topics
    → is_command b.direction ≡ true
    → lookup b.ros_topic outputs ≡ some p
    → output_contract p ≡ output_contract b
check_on-agrees [] outputs p b h m command found = absurd (Memᴰ.not-nil m)
check_on-agrees (topic ∷ rest) outputs p b h m command found =
    elim (check_on-cons topic rest outputs h) [
      | inr (other, passed) ↦ elim (Memᴰ.cases_cons m) [
        | inl here ↦ absurd (cc (here, command, other))
        | inr there ↦ check_on-agrees rest outputs p b passed there command found
      ]
      | inl (_, free, passed) ↦
          let held : (q : TopicBinding)
              → lookup topic.ros_topic outputs ≡ some q
              → output_contract q ≡ output_contract topic =
            λ q e.
              same_contract-eq (output_contract q) (output_contract topic)
                (ap (λ o. no_conflict o topic) (sym e) ∙ free) in
          elim (Memᴰ.cases_cons m) [
            | inl here ↦
                subst
                  (λ t. lookup t.ros_topic outputs ≡ some p → output_contract p ≡ output_contract t)
                  (sym here) (held p) found
            | inr there ↦ elim (text_discrete b.ros_topic topic.ros_topic) [
              | yes i ↦
                  held p (ap (λ t. lookup t outputs) (sym i) ∙ found)
                  ∙ check_on-agrees rest (put topic.ros_topic topic outputs) topic b passed there
                      command
                      (ap (λ t. lookup t (put topic.ros_topic topic outputs)) i
                        ∙ lookup-put_self topic.ros_topic topic outputs)
              | no i ↦
                  check_on-agrees rest (put topic.ros_topic topic outputs) p b passed there command
                    (lookup-put_ne b.ros_topic topic.ros_topic topic outputs (λ j. i (sym j))
                      ∙ found)
            ]
          ]
    ]

check_on-consistent :
    (topics : List TopicBinding) (outputs : List (Text × TopicBinding)) (a b : TopicBinding)
    → check_on topics outputs ≡ ok tt
    → Memᴰ a topics
    → Memᴰ b topics
    → is_command a.direction ≡ true
    → is_command b.direction ≡ true
    → a.ros_topic ≡ b.ros_topic
    → output_contract a ≡ output_contract b
check_on-consistent [] outputs a b h m n commands command same = absurd (Memᴰ.not-nil m)
check_on-consistent (topic ∷ rest) outputs a b h m n commands command same =
    elim (check_on-cons topic rest outputs h) [
      | inr (other, passed) ↦ elim (Memᴰ.cases_cons m) [
        | inl here ↦ absurd (cc (here, commands, other))
        | inr there ↦ elim (Memᴰ.cases_cons n) [
          | inl here ↦ absurd (cc (here, command, other))
          | inr there' ↦
              check_on-consistent rest outputs a b passed there there' commands command same
        ]
      ]
      | inl (_, _, passed) ↦
          let ahead : (c : TopicBinding)
              → Memᴰ c rest
              → is_command c.direction ≡ true
              → topic.ros_topic ≡ c.ros_topic
              → output_contract topic ≡ output_contract c =
            λ c there goes equal.
              check_on-agrees rest (put topic.ros_topic topic outputs) topic c passed there goes (
                ap (λ t. lookup t (put topic.ros_topic topic outputs)) (sym equal)
                ∙ lookup-put_self topic.ros_topic topic outputs) in
          elim (Memᴰ.cases_cons m) [
            | inl here ↦ elim (Memᴰ.cases_cons n) [
              | inl here' ↦ ap output_contract (here ∙ sym here')
              | inr there' ↦
                  ap output_contract here
                  ∙ ahead b there' command (ap (λ t. t.ros_topic) (sym here) ∙ same)
            ]
            | inr there ↦ elim (Memᴰ.cases_cons n) [
              | inl here' ↦ sym (
                  ap output_contract here'
                  ∙ ahead a there commands (ap (λ t. t.ros_topic) (sym here') ∙ sym same))
              | inr there' ↦
                  check_on-consistent rest (put topic.ros_topic topic outputs) a b passed there
                    there' commands command same
            ]
          ]
    ]

-- Two topics of a list that passes the check, both of which take messages from the Web to the same ROS
-- topic, have the same contract: type, QoS, access, guard, rate, delivery and queue.
pub check_outputs-consistent :
    (topics : List TopicBinding) (a b : TopicBinding)
    → check_outputs topics ≡ ok tt
    → Memᴰ a topics
    → Memᴰ b topics
    → is_command a.direction ≡ true
    → is_command b.direction ≡ true
    → a.ros_topic ≡ b.ros_topic
    → output_contract a ≡ output_contract b
unfolding check_outputs
check_outputs-consistent topics a b h m n commands command same =
    check_on-consistent topics [] a b h m n commands command same
