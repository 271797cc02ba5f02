-- ===== src/Tx/Stored.antt =====
-- What a transaction that succeeds leaves in the log, the local data and the counter.
pub mod Commit
pub mod Reading
pub mod Steps
pub mod Insert
pub mod Update
pub mod Trees
pub mod Later
pub mod Content
