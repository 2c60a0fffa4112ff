-- ===== src/Ros.antt =====
-- packages/bridge/src/ros: the ROS entities that the process owns.
pub mod Adapter
