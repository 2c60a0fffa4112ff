-- ===== src/Media.antt =====
-- packages/bridge/src/media: the encoders of the tracks.
pub mod Renumber
pub mod Source
