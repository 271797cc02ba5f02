-- ===== src/Wql.antt =====
-- The query language: its values (wql/src/lib.rs) and part of its parser.
pub mod Types
pub mod Condition
pub mod Ast
pub mod Parser
