-- ===== src/Transport.antt =====
-- packages/bridge/src/transport: the offers of browsers.
pub mod Sdp
