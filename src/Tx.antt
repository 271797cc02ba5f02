-- ===== src/Tx.antt =====
-- The transactions: woori-db/src/controllers/tx.rs.
pub mod Steps
pub mod Create
pub mod Insert
pub mod Update
pub mod MatchUpdate
pub mod Delete
pub mod Handler
pub mod Rules
pub mod Durable
pub mod Refusals
pub mod Stored
