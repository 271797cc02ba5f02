-- ===== src/Wql/Ast.antt =====
-- `Wql`, the parsed queries: wql/src/lib.rs, with the types of select.rs, where_clause.rs and
-- relation.rs.
use wooridb.Base.{ℕ, List, Option, Text}
use wooridb.Base.Map.{Map}
use wooridb.Wql.Types.{Types, Entity, Uuid}
use wooridb.Wql.Condition.{MatchCondition}

pub data ToSelect : Type 0 where
  all : ToSelect
  keys : List Text → ToSelect

pub data Order : Type 0 where
  asc desc : Order

pub data Algebra : Type 0 where
  dedup group_by : Text → Algebra
  order_by : Text → Order → Algebra
  limit offset : ℕ → Algebra
  count : Algebra

pub data Function : Type 0 where
  eq g_eq g l_eq l not_eq like between or in_ error : Function

mutual
  pub data Clause : Type 0 where
    contains_key_value : Text → Text → Types → Clause
    value_attribution : Text → Text → Text → Clause
    simple_comparison_function : Function → Text → Types → Clause
    complex_comparison_functions : Function → Text → List Types → Clause
    or_clause : Function → Clauses → Clause
    error_clause : Clause

  -- Vec<Clause>
  pub data Clauses : Type 0 where
    end : Clauses
    clause : Clause → Clauses → Clauses

pub data Relation : Type 0 where
  difference intersect union : Relation

pub data RelationType : Type 0 where
  key key_value : RelationType

mutual
  pub data Wql : Type 0 where
    create_entity : Text → List Text → List Text → Wql
    insert : Text → Entity → Option Uuid → Wql
    update_content update_set : Text → Entity → Uuid → Wql
    delete : Text → Text → Wql
    match_update : Text → Entity → Uuid → MatchCondition → Wql
    evict : Text → Option Uuid → Wql
    select : Text → ToSelect → Option Uuid → Map Text Algebra → Wql
    select_when : Text → ToSelect → Option Uuid → Text → Wql
    select_when_range : Text → Uuid → Text → Text → Wql
    select_ids : Text → ToSelect → List Uuid → Map Text Algebra → Wql
    select_where : Text → ToSelect → Clauses → Map Text Algebra → Wql
    check_value : Text → Uuid → Map Text Text → Wql
    relation_query : Queries → Relation → RelationType → Wql
    join : Text × Text → Text × Text → Queries → Wql

  -- Vec<Wql>
  pub data Queries : Type 0 where
    end : Queries
    query : Wql → Queries → Queries
