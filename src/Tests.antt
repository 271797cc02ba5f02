-- ===== src/Tests.antt =====
-- A small server, and runs of the theorems on it.
pub mod Sample
pub mod Actors
pub mod Tx
pub mod Answers
mod Parsing
