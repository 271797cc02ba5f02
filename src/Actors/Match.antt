-- ===== src/Actors/Match.antt =====
-- Preconditions of MATCH UPDATE: the `MatchUpdate` message of woori-db/src/actors/state.rs.
pub mod Meaning
use Prim.Native.Nat.{Ordering}
use wooridb.Base.{Bool, true, false, not, ◌&&◌, ◌||◌, Option, none, some, text_key, if◌then◌else◌}
use wooridb.Base.Map.{get}
use wooridb.Base.Int.{ℤ, compare_ℤ}
use wooridb.Wql.Types.{Types, integer, float, Entity, Float64, types_eq}
use wooridb.Wql.Condition.{
  MatchCondition, all, any, eq, not_eq, g_eq, g, l_eq, l, Conditions, end, condition,
}
use wooridb.Model.{failed_match_condition, unknown_condition}
use wooridb.Server.{Outcome, ok, err}

abbrev pub lt_ℤ : ℤ → ℤ → Bool
lt_ℤ a b = elim (compare_ℤ a b) [ Ordering.lt ↦ true | _ ↦ false ]

abbrev pub le_ℤ : ℤ → ℤ → Bool
le_ℤ a b = elim (compare_ℤ a b) [ Ordering.gt ↦ false | _ ↦ true ]

module _ (f : Float64) where
  -- The condition's value comes first, the state's second.
  unfoldable pub ge_match_types : Types → Types → Bool
  ge_match_types (integer c) (integer s) = le_ℤ c s
  ge_match_types (float c) (float s) = f.le c s
  ge_match_types _ _ = false

  unfoldable pub g_match_types : Types → Types → Bool
  g_match_types (integer c) (integer s) = lt_ℤ c s
  g_match_types (float c) (float s) = f.lt c s
  g_match_types _ _ = false

  unfoldable pub le_match_types : Types → Types → Bool
  le_match_types (integer c) (integer s) = le_ℤ s c
  le_match_types (float c) (float s) = f.le s c
  le_match_types _ _ = false

  unfoldable pub l_match_types : Types → Types → Bool
  l_match_types (integer c) (integer s) = lt_ℤ s c
  l_match_types (float c) (float s) = f.lt s c
  l_match_types _ _ = false

  abbrev test : (Types → Bool) → Option Types → Bool
  test p none = false
  test p (some s) = p s

  -- The closure that `match_all` and `match_any` map over the conditions.
  unfoldable pub holds : Entity → MatchCondition → Bool
  unfolding ge_match_types g_match_types le_match_types l_match_types
  holds state (eq key val) = test (λ s. types_eq f s val) (get key state)
  holds state (not_eq key val) = test (λ s. not (types_eq f s val)) (get key state)
  holds state (g_eq key val) = test (ge_match_types val) (get key state)
  holds state (l_eq key val) = test (le_match_types val) (get key state)
  holds state (g key val) = test (g_match_types val) (get key state)
  holds state (l key val) = test (l_match_types val) (get key state)
  holds state (all c) = false
  holds state (any c) = false

  unfoldable pub every : Entity → Conditions → Bool
  every state end = true
  every state (condition c rest) = holds state c && every state rest

  unfoldable pub some_of : Entity → Conditions → Bool
  some_of state end = false
  some_of state (condition c rest) = holds state c || some_of state rest

  unfoldable pub match_all : Entity → Conditions → Outcome (Unit {0})
  unfolding every
  match_all state conds = if every state conds then ok tt else err failed_match_condition

  unfoldable pub match_any : Entity → Conditions → Outcome (Unit {0})
  unfolding some_of
  match_any state conds = if some_of state conds then ok tt else err failed_match_condition

  unfoldable pub match_update : Entity → MatchCondition → Outcome (Unit {0})
  unfolding match_all match_any
  match_update state (all conds) = match_all state conds
  match_update state (any conds) = match_any state conds
  match_update state _ = err unknown_condition
