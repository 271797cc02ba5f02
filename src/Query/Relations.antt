-- ===== src/Query/Relations.antt =====
-- INTERSECT, DIFFERENCE and UNION of two queries for one id: woori-db/src/controllers/relation.rs.
pub mod Keys
use wooridb.Base.{
  Bool, true, false, not, ◌&&◌, Option, none, some, List, [], ◌∷◌, ◌++◌, Text, text, text_key,
  if◌then◌else◌,
}
use wooridb.Base.Map.{get, insert, remove, contains_key}
use wooridb.Wql.Types.{Types, Entity, Float64, types_eq}
use wooridb.Wql.Ast.{
  Wql, select, select_when, all, keys, Queries, end, query, RelationType, key, key_value,
}
use wooridb.Model.{invalid_query, query_format}
use wooridb.Host.{Host}
use wooridb.Server.{Act, pure, fail, unwrap, ◌>>=◌}
use wooridb.Query.Response.{Response}
use wooridb.Query.Select.{select_all_with_id, select_keys_with_id}
use wooridb.Query.When.{select_all_id_when_controller, select_keys_id_when_controller}

-- The loop over the pairs of a state.
unfoldable pub each_pair : (Text → Types → Entity → Entity) → Entity → Entity → Entity
each_pair step [] state = state
each_pair step ((k, v) ∷ pairs) state = each_pair step pairs (step k v state)

-- PartialEq of Option
unfoldable pub same_value : Float64 → Option Types → Option Types → Bool
unfolding types_eq
same_value f none none = true
same_value f (some a) (some b) = types_eq f a b
same_value f _ _ = false

module _ (f : Float64) where
  unfoldable pub intersect_step : RelationType → Entity → Entity → Text → Types → Entity → Entity
  unfolding same_value
  intersect_step key first second k v state = elim (get k first) [
    | none ↦ state
    | some w ↦ insert k w state
  ]
  intersect_step key_value first second k v state =
      if contains_key k first && same_value f (get k first) (get k second)
      then insert k v state
      else state

  unfoldable pub difference_step : RelationType → Entity → Entity → Text → Types → Entity → Entity
  unfolding same_value
  difference_step key first second k v state =
      if contains_key k first then remove k state else state
  difference_step key_value first second k v state =
      if contains_key k first && same_value f (get k first) (get k second)
      then remove k state
      else state

  -- The value that the last case looks up in the second state is the pair's own.
  unfoldable pub union_step : RelationType → Entity → Entity → Text → Types → Entity → Entity
  unfolding same_value
  union_step key first second k v state =
      if not (contains_key k first) then insert k v state else state
  union_step key_value first second k v state =
      if not (same_value f (get k first) (get k second)) && contains_key k first
      then insert (k ++ text ":duplicated") v state
      else if not (same_value f (get k first) (get k second)) && not (contains_key k first)
      then insert k v state
      else state

  unfoldable pub intersect_states : RelationType → Entity → Entity → Entity
  unfolding each_pair intersect_step
  intersect_states t first second = each_pair (intersect_step t first second) second []

  unfoldable pub difference_states : RelationType → Entity → Entity → Entity
  unfolding each_pair difference_step
  difference_states t first second = each_pair (difference_step t first second) second first

  unfoldable pub union_states : RelationType → Entity → Entity → Entity
  unfolding each_pair union_step
  union_states t first second = each_pair (union_step t first second) second first

-- queries[0] and queries[1]
unfoldable pub two_queries : Queries → Option (Wql × Wql)
two_queries (query first (query second rest)) = some (first, second)
two_queries _ = none

-- The match on the two answers.
unfoldable pub related : (Entity → Entity → Response) → Response → Response → Act Response
related r (Response.id first) (Response.id second) = pure (r first second)
related r _ _ = fail invalid_query

module _ (h : Host) where
  unfoldable pub get_query_value : Wql → Act Response
  get_query_value (select entity all (some id) functions) = select_all_with_id h entity id
  get_query_value (select entity (keys ks) (some id) functions) = select_keys_with_id h entity id ks
  get_query_value (select_when entity all (some id) date) =
      select_all_id_when_controller h entity date id
  get_query_value (select_when entity (keys ks) (some id) date) =
      select_keys_id_when_controller h entity date ks id
  get_query_value _ = fail (
      query_format (
        text
          "Only single value queries are allowed, so key `ID` is required and keys `WHEN AT` are optional"))

  unfoldable pub relate : Queries → (Entity → Entity → Response) → Act Response
  relate queries r = do
    pair ← unwrap (two_queries queries)
    first ← get_query_value pair.0
    second ← get_query_value pair.1
    related r first second

  unfoldable pub intersect : Queries → RelationType → Act Response
  unfolding relate intersect_states
  intersect queries t =
      relate queries (λ f s. Response.intersect (intersect_states h.float64 t f s))

  unfoldable pub difference : Queries → RelationType → Act Response
  unfolding relate difference_states
  difference queries t =
      relate queries (λ f s. Response.difference (difference_states h.float64 t f s))

  unfoldable pub union : Queries → RelationType → Act Response
  unfolding relate union_states
  union queries t = relate queries (λ f s. Response.union (union_states h.float64 t f s))
