-- ===== src/Query/Relations/Keys.antt =====
-- INTERSECT, DIFFERENCE and UNION by key, as what they hold under each key.
use wooridb.Base.{
  Bool, not, ◌&&◌, Option, none, some, [], ◌∷◌, Text, text_eq_iff, text_key, arith, ◌≡◌, refl,
  if◌then◌else◌, Option-cases, inl, inr,
}
use wooridb.Base.Map.{get, insert, remove, contains_key, is_some, get-insert, get-remove}
use wooridb.Wql.Types.{Types, Entity, Float64}
use wooridb.Wql.Ast.{key}
use wooridb.Actors.Content.Merging.{HasDistinctKeys}
use wooridb.Query.Relations.{
  each_pair, intersect_step, difference_step, union_step, intersect_states, difference_states,
  union_states,
}

-- The value of the first state if the test holds, or else that of the second.
abbrev pub chosen : Bool → Option Types → Option Types → Option Types
chosen b a c = if b then a else c

abbrev pub or_else : Option Types → Option Types → Option Types
or_else none b = b
or_else (some a) b = some a

module _ (f : Float64) (first second : Entity) where
  intersect_lem :
      (j : Text) (m state : Entity)
      → get j (each_pair (intersect_step f key first second) m state)
        ≡ chosen (contains_key j m && contains_key j first) (get j first) (get j state)
  unfolding each_pair intersect_step get contains_key is_some
  intersect_lem j [] state = refl
  intersect_lem j ((k, v) ∷ m) state = elim (Option-cases (get k first)) [
    | inl n ↦ ground (arith, intersect_lem j m state, text_eq_iff k j)
    | inr (w, p) ↦
        ground
          (arith, intersect_lem j m (insert k w state), text_eq_iff k j, get-insert k j w state)
  ]

  difference_lem :
      (j : Text) (m state : Entity)
      → get j (each_pair (difference_step f key first second) m state)
        ≡ chosen (contains_key j m && contains_key j first) none (get j state)
  unfolding each_pair difference_step get contains_key is_some
  difference_lem j [] state = refl
  difference_lem j ((k, v) ∷ m) state = elim (Option-cases (get k first)) [
    | inl n ↦ ground (arith, difference_lem j m state, text_eq_iff k j)
    | inr (w, p) ↦
        ground (arith, difference_lem j m (remove k state), text_eq_iff k j, get-remove k j state)
  ]

  union_lem :
      (j : Text) (m state : Entity)
      → HasDistinctKeys m
      → get j (each_pair (union_step f key first second) m state)
        ≡ chosen (contains_key j m && not (contains_key j first)) (get j m) (get j state)
  unfolding each_pair union_step get contains_key is_some
  union_lem j [] state d = refl
  union_lem j ((k, v) ∷ m) state d = elim (Option-cases (get k first)) [
    | inl n ↦
        ground (
          arith,
          union_lem j m (insert k v state) d.1,
          text_eq_iff k j,
          get-insert k j v state,
          d.0,
        )
    | inr (w, p) ↦ ground (arith, union_lem j m state d.1, text_eq_iff k j, d.0)
  ]

  -- In the relations by KEY, and not by KEY-VALUE: of each key, INTERSECT holds the first state's value where the second state has the key too,
  -- DIFFERENCE where it has not, and UNION the first state's value or else the second's.
  pub get-relations :
      (j : Text)
      → HasDistinctKeys second
      → (get j (intersect_states f key first second)
          ≡ (if contains_key j second then get j first else none))
        × (get j (difference_states f key first second)
            ≡ (if contains_key j second then none else get j first))
        × (get j (union_states f key first second) ≡ or_else (get j first) (get j second))
  unfolding intersect_states difference_states union_states get contains_key is_some
  get-relations j d = elim (Option-cases (get j first)) [
    | inl n ↦ ground (
      arith,
      intersect_lem j second [],
      difference_lem j second first,
      union_lem j second first d,
      Option-cases (get j second),
    )
    | inr (w, p) ↦ ground (
      arith,
      intersect_lem j second [],
      difference_lem j second first,
      union_lem j second first d,
      Option-cases (get j second),
    )
  ]
