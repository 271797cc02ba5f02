-- ===== src/Query/Clauses.antt =====
-- SELECT WHERE: woori-db/src/controllers/clauses.rs. `none` is a panic: of an index into the values
-- of BETWEEN, or of `unwrap`. The alternatives of OR are looked at in their order up to the first
-- that passes; the source leaves their order to its threads.
pub mod Meaning
pub mod Like
pub mod Integers
use Prim.Native.Nat.{Ordering}
use wooridb.Base.{
  Bool, true, false, not, ◌&&◌, ◌||◌, Option, none, some, List, [], ◌∷◌, Text, text, text_key, any,
  take, drop, if◌then◌else◌,
}
use wooridb.Base.Map.{Map, get, insert}
use wooridb.Base.Strings.{starts_with, ends_with, has_part, without}
use wooridb.Wql.Types.{Types, string, Entity, Uuid, Float64, types_eq, partial_cmp}
use wooridb.Wql.Ast.{
  ToSelect, all, keys, Function, eq, g_eq, g, l_eq, l, not_eq, like, between, in_, Clause,
  contains_key_value, value_attribution, simple_comparison_function, complex_comparison_functions,
  or_clause, error_clause, Clauses, end, clause, Algebra,
}
use wooridb.Model.{StateInfo}
use wooridb.Host.{Host}
use wooridb.Server.{Act, pure, unwrap, ◌>>=◌}
use wooridb.Query.Response.{Response}
use wooridb.Query.States.{states_of, get_limit_offset_count, count_in}
use wooridb.Query.Dedup.{dedup_states}
use wooridb.Query.Result.{get_result_after_manipulation}
use wooridb.Query.Select.{get_registries}

abbrev pub greater_or_equal : Option Ordering → Bool
greater_or_equal (some Ordering.gt) = true
greater_or_equal (some Ordering.eq) = true
greater_or_equal _ = false

abbrev pub less_or_equal : Option Ordering → Bool
less_or_equal (some Ordering.lt) = true
less_or_equal (some Ordering.eq) = true
less_or_equal _ = false

abbrev pub greater : Option Ordering → Bool
greater (some Ordering.gt) = true
greater _ = false

abbrev pub less : Option Ordering → Bool
less (some Ordering.lt) = true
less _ = false

-- `filter_where_clauses`
unfoldable pub like_where : Types → Types → Bool
unfolding starts_with ends_with has_part without
like_where (string content) (string regex) =
    let pattern = without b'%' regex in
    starts_with (text "%") regex && ends_with (text "%") regex && has_part pattern content
    || starts_with (text "%") regex && ends_with pattern content
    || ends_with (text "%") regex && starts_with pattern content
    || has_part pattern content
like_where _ _ = false

-- `or_clauses`
unfoldable pub like_or : Types → Types → Bool
unfolding starts_with ends_with has_part without
like_or (string content) (string regex) =
    let pattern = without b'%' regex in
    if starts_with (text "%") regex && ends_with (text "%") regex
    then has_part pattern content
    else if starts_with (text "%") regex
    then ends_with pattern content
    else if ends_with (text "%") regex
    then starts_with pattern content
    else has_part regex content
like_or _ _ = false

-- args_to_key.get(key).unwrap_or(&default)
unfoldable pub key_of : Map Text Text → Text → Text
key_of args_to_key key = elim (get key args_to_key) [ none ↦ [] | some k ↦ k ]

-- The tuples (arg, key) of the attributions, later ones over earlier ones.
unfoldable pub args_of : Clauses → Map Text Text → Map Text Text
args_of end args = args
args_of (clause (value_attribution entity key arg) clauses) args =
    args_of clauses (insert arg key args)
args_of (clause _ clauses) args = args_of clauses args

abbrev pub on_value : Bool → (Types → Bool) → Option Types → Option Bool
on_value missing p none = some missing
on_value missing p (some v) = some (p v)

module _ (f : Float64) where
  unfoldable pub is_between : List Types → Types → Option Bool
  unfolding partial_cmp
  is_between [] v = none
  is_between (a ∷ []) v = if greater_or_equal (partial_cmp f v a) then none else some false
  is_between (a ∷ b ∷ r) v =
      some (greater_or_equal (partial_cmp f v a) && less_or_equal (partial_cmp f v b))

  abbrev pub between_value : List Types → Option Types → Option Bool
  between_value start_end none = some false
  between_value start_end (some v) = is_between start_end v

  -- Vec::contains
  unfoldable pub is_in : List Types → Types → Bool
  unfolding types_eq any
  is_in set v = any (λ x. types_eq f x v) set

  -- Functions that `filter_where_clauses` does not know keep the state.
  unfoldable pub compares_where : Function → Types → Types → Bool
  unfolding types_eq partial_cmp like_where
  compares_where eq value v = types_eq f v value
  compares_where not_eq value v = not (types_eq f v value)
  compares_where g_eq value v = greater_or_equal (partial_cmp f v value)
  compares_where g value v = greater (partial_cmp f v value)
  compares_where l_eq value v = less_or_equal (partial_cmp f v value)
  compares_where l value v = less (partial_cmp f v value)
  compares_where like value v = like_where v value
  compares_where _ value v = true

  unfoldable pub compares_or : Function → Types → Types → Bool
  unfolding types_eq partial_cmp like_or
  compares_or eq value v = types_eq f v value
  compares_or not_eq value v = not (types_eq f v value)
  compares_or g_eq value v = greater_or_equal (partial_cmp f v value)
  compares_or g value v = greater (partial_cmp f v value)
  compares_or l_eq value v = less_or_equal (partial_cmp f v value)
  compares_or l value v = less (partial_cmp f v value)
  compares_or like value v = like_or v value
  compares_or _ value v = false

  unfoldable mutual
    unfolding key_of is_between is_in compares_or types_eq

    pub or_clauses : Entity → Map Text Text → Clauses → Option Bool
    or_clauses state args end = some false
    or_clauses state args (clause c clauses) = elim (or_clause_holds state args c) [
      | none ↦ none
      | some true ↦ some true
      | some false ↦ or_clauses state args clauses
    ]

    pub or_clause_holds : Entity → Map Text Text → Clause → Option Bool
    or_clause_holds state args (value_attribution entity key arg) = some true
    or_clause_holds state args (or_clause fn clauses) = or_clauses state args clauses
    or_clause_holds state args (contains_key_value entity key value) =
        on_value false (types_eq f value) (get (key_of args key) state)
    or_clause_holds state args (simple_comparison_function fn key value) =
        on_value false (compares_or fn value) (get (key_of args key) state)
    or_clause_holds state args (complex_comparison_functions in_ key set) =
        on_value false (is_in set) (get (key_of args key) state)
    or_clause_holds state args (complex_comparison_functions between key start_end) =
        between_value start_end (get (key_of args key) state)
    or_clause_holds state args (complex_comparison_functions _ key set) = some false
    or_clause_holds state args error_clause = some false

  -- The condition under which the loop for one clause keeps a state.
  unfoldable pub keeps : Map Text Text → Clause → Entity → Option Bool
  unfolding key_of is_between is_in compares_where types_eq or_clauses
  keeps args (value_attribution entity key arg) state = some true
  keeps args (or_clause fn clauses) state = or_clauses state args clauses
  keeps args (contains_key_value entity key value) state =
      on_value false (types_eq f value) (get key state)
  keeps args (simple_comparison_function fn key value) state =
      on_value true (compares_where fn value) (get (key_of args key) state)
  keeps args (complex_comparison_functions in_ key set) state =
      on_value false (is_in set) (get (key_of args key) state)
  keeps args (complex_comparison_functions between key start_end) state =
      between_value start_end (get (key_of args key) state)
  keeps args (complex_comparison_functions _ key set) state = some true
  keeps args error_clause state = some true

  -- for (id, state) in states.clone(), with states.remove(&id)
  unfoldable pub filter_states : (Entity → Option Bool) → Map Uuid Entity → Option (Map Uuid Entity)
  filter_states p [] = some []
  filter_states p ((id, state) ∷ states) =
      let rest = filter_states p states in
      elim (p state) [
        | none ↦ none
        | some b ↦ elim rest [ none ↦ none | some r ↦ some (if b then (id, state) ∷ r else r) ]
      ]

  unfoldable pub filter_where_clauses :
      Map Uuid Entity → Map Text Text → Clauses → Option (Map Uuid Entity)
  unfolding filter_states keeps
  filter_where_clauses states args end = some states
  filter_where_clauses states args (clause c clauses) = elim (filter_states (keeps args c) states) [
    | none ↦ none
    | some r ↦ filter_where_clauses r args clauses
  ]

abbrev pub keys_to_select : ToSelect → Option (List Text)
keys_to_select all = none
keys_to_select (keys ks) = some ks

module _ (h : Host) where
  unfoldable pub generate_state : Map Uuid StateInfo → ToSelect → Option (Map Uuid Entity)
  unfolding states_of
  generate_state registries args_to_select = states_of h (keys_to_select args_to_select) registries

  unfoldable pub select_where : Text → ToSelect → Clauses → Map Text Algebra → Act (Map Uuid Entity)
  select_where entity args_to_select clauses functions =
      let (limit, offset, count) = get_limit_offset_count functions in
      do
        registries ← get_registries entity
        states ← unwrap (generate_state registries args_to_select)
        states ← unwrap (filter_where_clauses h.float64 states (args_of clauses []) clauses)
        unwrap (dedup_states h (take limit (drop offset states)) functions)

  unfoldable pub select_where_controller :
      Text → ToSelect → Clauses → Map Text Algebra → Act Response
  select_where_controller entity args_to_select clauses functions = do
    states ← select_where entity args_to_select clauses functions
    pure
        (get_result_after_manipulation h states functions (count_in (get (text "COUNT") functions)))
