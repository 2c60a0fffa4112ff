-- ===== src/Runtime.antt =====
-- What the modules share of the language's runtime: exceptions, big integers as decimal text, and
-- the readings of a clock.
pub mod Outcome
pub mod Exec
pub mod Decimal
pub mod Scan
