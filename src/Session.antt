-- ===== src/Session.antt =====
-- packages/bridge/src/session: the validation of limits, identifiers and sequence numbers, the
-- bounded delivery queue of a peer, and the guard of command authority.
pub mod Validation
pub mod Queue
pub mod Guard
