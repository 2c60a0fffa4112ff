-- ===== src/Config.antt =====
-- packages/bridge/src/config/types.d.ts: the configuration that the other components read.
pub mod Validation
pub mod Binding
pub mod Contract
pub mod Outputs
pub mod Bridge
pub mod Deployment
pub mod Video
mod Tests
use package.ros_webrtc_bridge.Prelude.{ℕ, ◌+◌, ◌-◌, ◌*◌, ◌/◌, Bool, Option, Text}

pub data Direction : Type 0 where
  ros_to_web web_to_ros : Direction

pub data Delivery : Type 0 where
  reliable realtime : Delivery

pub data QueuePolicy : Type 0 where
  latest fifo : QueuePolicy

pub data Reliability : Type 0 where
  reliable best_effort : Reliability

pub data Durability : Type 0 where
  volatile transient_local : Durability

-- `history` is `keep_last`, the only value that there is.
pub record RosQos : Type 0 where
  pub reliability : Reliability
  pub durability : Durability
  pub depth : ℕ

-- A finite positive number, as a quotient.
pub record Rate : Type 0 where
  pub numerator : ℕ
  pub denominator : ℕ

pub record Access : Type 0 where
  pub publish_scope : Text
  pub exclusive_writer : Bool

-- `command_guard` holds the lease duration; `required` is true, the only value that there is.
pub record TopicBinding : Type 0 where
  pub public_name : Text
  pub ros_topic : Text
  pub ros_type : Text
  pub direction : Direction
  pub ros_qos : RosQos
  pub delivery : Delivery
  pub max_rate_hz : Rate
  pub policy : QueuePolicy
  pub max_messages : ℕ
  pub access : Option Access
  pub command_guard : Option ℕ

-- The least whole number of milliseconds that is not below `1000 / maxRateHz`. Times are whole
-- milliseconds, so a time is below the next one allowed exactly if it is below this one.
unfoldable pub period_ms : Rate → ℕ
period_ms rate = (1000 * rate.denominator + rate.numerator - 1) / rate.numerator
