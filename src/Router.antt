-- ===== src/Router.antt =====
-- packages/bridge/src/router: one peer's control messages.
pub mod RequestCache
pub mod Protocol
pub mod Video
pub mod SessionRouter
