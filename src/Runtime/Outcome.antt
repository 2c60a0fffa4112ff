-- ===== src/Runtime/Outcome.antt =====
-- `throw new Error('code')`: a call returns or throws, and what it wrote before a throw stays written.
use package.ros_webrtc_bridge.Prelude.{◌≡◌, refl, arith, Bool, true, false, ℕ, Option, none, some}

-- The codes that the modelled files throw.
pub data Error : Type 0 where
  invalid_limit invalid_identifier invalid_sequence : Error
  invalid_policy duplicate_stream stream_limit slow_consumer message_size unknown_stream : Error
  session_limit unknown_session invalid_topic unauthorized handle_limit writer_busy : Error
  invalid_clock invalid_owner invalid_epoch invalid_lease lease_expired stale_sequence : Error
  ticket_consumed guard_closed : Error
  request_conflict request_limit cache_limit : Error
  unknown_field unknown_operation video_slot_limit video_profile_mismatch unknown_video_slot : Error
  invalid_channel control_rate invalid_envelope invalid_protocol already_welcomed hello_required :
      Error
  request_id_required lease_not_required router_closed invalid_publish : Error
  publish_rate_or_sequence unexpected_lease unknown_handle cleanup_failed invalid_binding : Error
  -- The reasons of a ConfigError.
  object_required unknown_config_field invalid_string positive_required safe_integer_required :
      Error
  unsupported_value boolean_required topic_too_long type_unavailable queue_conflict : Error
  one_message_required access_direction guard_required required_not_true command_requirements :
      Error
  video_volatile video_size_limits video_odd_axis video_bitrate video_profile video_track_count :
      Error
  duplicate_source more_pipelines exposed_topic video_incomplete : Error
  conflicting_output document_size invalid_yaml unsupported_version topic_count
        inconsistent_limits :
      Error
  invalid_offer datachannel_only invalid_video_section unsupported_video_codec : Error
  invalid_message_limit : Error
  duplicate_ros_registration ros_adapter_not_new ros_adapter_not_running : Error
  ros_binding_denied ros_start_cleanup_failed : Error
  -- Not of the program: a loop of the model that was given too little fuel.
  out_of_fuel : Error
  -- Thrown by the language: a field of `undefined`.
  type_error : Error
  -- Thrown by a callback that the caller supplies.
  callback_error : Error

pub data Outcome {ℓ} (A : Type ℓ) : Type ℓ where
  ok : A → Outcome A
  throw : Error → Outcome A

infixl 5 ◌>>=◌ ◌>>◌
abbrev pub ◌>>=◌ {ℓ κ} : {A : Type ℓ} {B : Type κ} → Outcome A → (A → Outcome B) → Outcome B
ok a >>= f = f a
throw e >>= f = throw e

abbrev pub ◌>>◌ {ℓ} : {B : Type ℓ} → Outcome (Unit {0}) → Outcome B → Outcome B
m >> k = m >>= λ _. k

-- `if (!test) throw new Error(code)`
abbrev pub require : Bool → Error → Outcome (Unit {0})
require true e = ok tt
require false e = throw e

-- `Number.MAX_SAFE_INTEGER`
abbrev pub max_safe_integer : ℕ
max_safe_integer = 9007199254740991

-- A number that a clock returns: `NaN` and the infinities, a negative number, or a natural number of
-- the clock's finest unit.
pub data Reading : Type 0 where
  at : ℕ → Reading
  below_zero not_finite : Reading

-- A method whose throws all come before its first write: the new state on success, the old one else.
abbrev pub commit {ℓ κ} : {A : Type ℓ} {S : Type κ} → S → Outcome (A × S) → Outcome A × S
commit s (ok (a, s')) = (ok a, s')
commit s (throw e) = (throw e, s)

abbrev pub or_throw {ℓ} : {A : Type ℓ} → Option A → Error → Outcome A
or_throw none e = throw e
or_throw (some a) e = ok a

-- What the parts of a chain that gives a value give.
pub bind_ok {ℓ κ} :
    {A : Type ℓ} {B : Type κ} (m : Outcome A) (f : A → Outcome B) (b : B)
    → (m >>= f) ≡ ok b
    → (a : A) × (m ≡ ok a) × (f a ≡ ok b)
bind_ok (ok a) f b h = (a, refl, h)
bind_ok (throw e) f b h = ground arith

pub or_throw-some {ℓ} :
    {A : Type ℓ} (o : Option A) (e : Error) (a : A) → or_throw o e ≡ ok a → o ≡ some a
or_throw-some none e a h = ground arith
or_throw-some (some b) e a h = ground arith

-- What holds of the value where a call gives one.
abbrev pub Gives {ℓ κ} : {A : Type ℓ} → (A → Type κ) → Outcome A → Type κ
Gives Q (ok a) = Q a
Gives Q (throw e) = Unit

pub Gives-then {ℓ κ} :
    {A B : Type ℓ} (Q : B → Type κ) (m : Outcome A) (f : A → Outcome B)
    → ((a : A) → m ≡ ok a → Gives Q (f a))
    → Gives Q (m >>= f)
Gives-then Q (ok a) f h = h a refl
Gives-then Q (throw e) f h = tt
