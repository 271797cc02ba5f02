-- ===== src/Actors.antt =====
-- The messages of the `Executor` actor: woori-db/src/actors, with woori-db/src/io and
-- woori-db/src/core/wql.rs, which they call.
pub mod Files
pub mod Lines
pub mod State
pub mod Match
pub mod Uniques
pub mod Encrypts
pub mod Content
