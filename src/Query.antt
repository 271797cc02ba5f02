-- ===== src/Query.antt =====
-- What queries make of the stored states: woori-db/src/core/query.rs.
pub mod Response
pub mod States
pub mod Dedup
pub mod Ordering
pub mod Groups
pub mod Result
pub mod Select
pub mod Clauses
pub mod When
pub mod Relations
pub mod Join
pub mod History
pub mod CheckValue
pub mod Handler
pub mod Plain
