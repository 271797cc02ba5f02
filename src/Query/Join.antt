-- ===== src/Query/Join.antt =====
-- JOIN: `Response::hash` and `Response::parse` of woori-db/src/schemas/query.rs, and `join` of
-- woori-db/src/controllers/relation.rs. A HashMap<Types, _> finds a value by its equality.
pub mod Nested
use wooridb.Base.{
  Bool, true, false, not, ◌&&◌, Option, none, some, List, [], ◌∷◌, ◌++◌, Text, text, text_eq,
  text_key, if◌then◌else◌,
}
use wooridb.Base.Map.{Map, insert, contains_key}
use wooridb.Wql.Types.{Types, Entity, Uuid, Float64, types_eq}
use wooridb.Wql.Ast.{Wql, select, select_ids, select_where, all, keys, Queries, end, query}
use wooridb.Model.{query_format}
use wooridb.Host.{Host}
use wooridb.Server.{Act, pure, fail, unwrap, or_fail, ◌>>=◌}
use wooridb.Query.Response.{Response}
use wooridb.Query.Dedup.{value_or_nil}
use wooridb.Query.Select.{select_all, select_args, select_all_with_ids, select_keys_with_ids}
use wooridb.Query.Clauses.{select_where_controller}

abbrev pub Table : Type 0
Table = List (Types × List Entity)

unfoldable pub values_of {ℓ} : {A : Type ℓ} → Map Uuid A → List A
values_of [] = []
values_of ((id, s) ∷ states) = s ∷ values_of states

unfoldable pub present : Map Uuid (Option Entity) → List Entity
present [] = []
present ((id, none) ∷ states) = present states
present ((id, some s) ∷ states) = s ∷ present states

-- The answers that JOIN takes, as the states to go over.
unfoldable pub joinable : Response → Option (List Entity)
unfolding values_of present
joinable (Response.all states) = some (values_of states)
joinable (Response.order states) = some (values_of states)
joinable (Response.option_order states) = some (present states)
joinable (Response.option_select states) = some (present states)
joinable _ = none

module _ (f : Float64) where
  unfoldable pub rows : Types → Table → List Entity
  unfolding types_eq
  rows v [] = []
  rows v ((u, group) ∷ table) = if types_eq f u v then group else rows v table

  -- hm.entry(v).or_insert(Vec::new()).push(s)
  unfoldable pub push : Types → Entity → Table → Table
  unfolding types_eq
  push v s [] = (v, s ∷ []) ∷ []
  push v s ((u, group) ∷ table) =
      let rest = push v s table in
      if types_eq f u v then (u, group ++ s ∷ []) ∷ table else (u, group) ∷ rest

  unfoldable pub hash_loop : Text → List Entity → Table → Table
  unfolding push value_or_nil
  hash_loop key [] hm = hm
  hash_loop key (s ∷ states) hm = hash_loop key states (push (value_or_nil key s) s hm)

  unfoldable pub hash : Text → Response → Option Table
  unfolding hash_loop joinable
  hash key response = elim (joinable response) [
    | none ↦ none
    | some states ↦ some (hash_loop key states [])
  ]

-- The name for an entry of the second state, in `All`, `Order` and `OptionOrder`.
unfoldable pub entry_name : Text → Text → Entity → Text
entry_name ent_b k s = if contains_key k s then k ++ text ":" ++ ent_b else k

-- The same in `OptionSelect`
unfoldable pub entry_name_select : Text → Text → Entity → Text
entry_name_select ent_b k s = if contains_key k s then k else k ++ text ":" ++ ent_b

-- The second state's entries go into a copy of the first; `tx_time` and the key that is joined on
-- are left out.
unfoldable pub combine : (Text → Entity → Text) → Text → Entity → Entity → Entity
unfolding text_eq
combine name key_b [] s = s
combine name key_b ((k, v) ∷ ent) s =
    if not (text_eq k (text "tx_time")) && not (text_eq k key_b)
    then combine name key_b ent (insert (name k s) v s)
    else combine name key_b ent s

unfoldable pub combine_each : (Entity → Entity) → List Entity → List Entity
combine_each with_b [] = []
combine_each with_b (ent ∷ entities) = with_b ent ∷ combine_each with_b entities

abbrev pub naming : Response → Text → Text → Entity → Text
naming (Response.option_select states) = entry_name_select
naming _ = entry_name

module _ (f : Float64) where
  unfoldable pub parse_states :
      (Text → Entity → Text) → Text → Text → List Entity → Table → List Entity
  unfolding rows combine combine_each value_or_nil
  parse_states name key key_b [] b_hash = []
  parse_states name key key_b (s ∷ states) b_hash =
      combine_each (λ ent. combine name key_b ent s) (rows f (value_or_nil key s) b_hash)
      ++ parse_states name key key_b states b_hash

  -- `none` where the source returns false.
  unfoldable pub parse : Response → Text → Text × Text → Table → Option (List Entity)
  unfolding joinable parse_states entry_name entry_name_select
  parse response key ent_b b_hash = elim (joinable response) [
    | none ↦ none
    | some states ↦ some (parse_states (naming response ent_b.0) key ent_b.1 states b_hash)
  ]

-- queries[n]
unfoldable pub first_query : Queries → Option Wql
first_query end = none
first_query (query first rest) = some first

unfoldable pub second_query : Queries → Option Wql
unfolding first_query
second_query end = none
second_query (query first rest) = first_query rest

module _ (h : Host) where
  unfoldable pub get_join_query_value : Wql → Act Response
  get_join_query_value (select entity all none functions) = select_all h entity functions
  get_join_query_value (select entity (keys ks) none functions) = select_args h entity ks functions
  get_join_query_value (select_ids entity all ids functions) =
      select_all_with_ids h entity ids functions
  get_join_query_value (select_ids entity (keys ks) ids functions) =
      select_keys_with_ids h entity ks ids functions
  get_join_query_value (select_where entity args_to_select clauses functions) =
      select_where_controller h entity args_to_select clauses functions
  get_join_query_value _ = fail (
      query_format (
        text "Only multiple values queries are allowed, so key `ID` and `WHEN AT` are not allowed"))

  unfoldable pub join : Text × Text → Text × Text → Queries → Act Response
  unfolding hash parse
  join entity_a entity_b queries = do
    first ← unwrap (first_query queries)
    a ← get_join_query_value first
    second ← unwrap (second_query queries)
    b ← get_join_query_value second
    b_hash ← or_fail (query_format (text "Join query not supported")) (hash h.float64 entity_b.1 b)
    result ←
        or_fail (query_format (text "Join query not supported"))
          (parse h.float64 a entity_a.1 entity_b b_hash)
    pure (Response.join result)
