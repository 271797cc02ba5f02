-- ===== src/Query/Result/Conserved.antt =====
-- ORDER, GROUP and COUNT lose no state and make none up.
use wooridb.Base.{
  ℕ, Bool, true, false, Option, none, some, List, [], ◌∷◌, Text, text, text_key, length, ◌≡◌, refl,
  ◌∙◌, inl, inr, Option-cases,
}
use wooridb.Base.Map.{Map, get}
use wooridb.Base.Sorted.{IsSorted}
use wooridb.Base.Sorting.{Ascends, sort_by-Perm}
use wooridb.Wql.Types.{Entity, Uuid, Float64}
use wooridb.Wql.Ast.{Algebra, Order, order_by, group_by}
use wooridb.Host.{Host}
use wooridb.Query.Response.{Response, count_response}
use wooridb.Query.Ordering.{goes_before, sort_states}
use wooridb.Query.Ordering.Ascending.{AreIntegers, goes_first, sort_states-Ascends}
use wooridb.Query.Groups.{group_loop, map_groups, group_value}
use wooridb.Query.Groups.Partition.{all_of, groups-Perm}
use wooridb.Query.Result.{
  counted, grouped_result, ungrouped_result, order_alone, get_result_after_manipulation,
}
use mathlib.Core.List.{Perm}
use mathlib.Core.List.Perm

-- The states in an answer, without their arrangement.
abbrev pub states_in : Response → List (Uuid × Entity)
states_in (Response.all states) = states
states_in (Response.order states) = states
states_in (Response.group_by groups) = all_of groups
states_in (Response.ordered_group_by groups) = all_of groups
states_in (Response.with_count (count_response n response)) = states_in response
states_in _ = []

module _ (h : Host) where
  counted-states : (c : Bool) (n : ℕ) (r : Response) → states_in (counted c n r) ≡ states_in r
  unfolding counted
  counted-states true n r = refl
  counted-states false n r = refl

  sort_states-Perm :
      (f : Float64) (k : Text) (ord : Order) (states : List (Uuid × Entity))
      → Perm (sort_states f k ord states) states
  unfolding sort_states
  sort_states-Perm f k ord = sort_by-Perm (goes_before f k ord)

  map_groups-Perm :
      (f : Float64) (k : Text) (ord : Order) (groups : Map Text (List (Uuid × Entity)))
      → Perm (all_of (map_groups (sort_states f k ord) groups)) (all_of groups)
  unfolding map_groups
  map_groups-Perm f k ord [] = Perm.rfl
  map_groups-Perm f k ord ((d, g) ∷ groups) =
      Perm.append (sort_states-Perm f k ord g) (map_groups-Perm f k ord groups)

  -- The arrangement of groups that ORDER asks for.
  grouped_by :
      (o : Option Algebra) (groups : Map Text (Map Uuid Entity)) (c : Bool)
      → Perm
          (states_in (elim o as (λ o. Response) [
            | some (order_by j ord) ↦
                Response.ordered_group_by (map_groups (sort_states h.float64 j ord) groups)
            | _ ↦ counted c (length groups) (Response.group_by groups)
          ]))
          (all_of groups)
  grouped_by (some (order_by j ord)) groups c = map_groups-Perm h.float64 j ord groups
  grouped_by none groups c =
      rw (counted-states c (length groups) (Response.group_by groups)) Perm.rfl
  grouped_by (some _) groups c =
      rw (counted-states c (length groups) (Response.group_by groups)) Perm.rfl

  grouped_result-Perm :
      (k : Text) (states : Map Uuid Entity) (functions : Map Text Algebra) (c : Bool)
      → IsSorted states
      → Perm (states_in (grouped_result h k states functions c)) states
  unfolding grouped_result
  grouped_result-Perm k states functions c s =
      Perm.trans
        (grouped_by (get (text "ORDER") functions) (group_loop (group_value h k) states []) c)
        (groups-Perm (group_value h k) states s)

  ungrouped_result-Perm :
      (states : Map Uuid Entity) (functions : Map Text Algebra) (c : Bool)
      → Perm (states_in (ungrouped_result h states functions c)) states
  unfolding ungrouped_result
  ungrouped_result-Perm states functions c =
      elim (order_alone (get (text "ORDER") functions) (get (text "GROUP") functions))
        as (λ o.
          Perm
            (states_in (elim o as (λ o. Response) [
              | some (j, ord) ↦
                  counted c (length states) (Response.order (sort_states h.float64 j ord states))
              | none ↦ counted c (length states) (Response.all states)
            ]))
            states) [
              | none ↦ rw (counted-states c (length states) (Response.all states)) Perm.rfl
              | some (j, ord) ↦
                  rw
                    (counted-states c (length states)
                      (Response.order (sort_states h.float64 j ord states)))
                    (sort_states-Perm h.float64 j ord states)
            ]

  -- Whatever ORDER, GROUP and COUNT ask for, the answer holds the states of the page, each as
  -- often as it is there.
  pub get_result-Perm :
      (states : Map Uuid Entity) (functions : Map Text Algebra) (should_count : Bool)
      → IsSorted states
      → Perm (states_in (get_result_after_manipulation h states functions should_count)) states
  unfolding get_result_after_manipulation
  get_result-Perm states functions c s = by_group (get (text "GROUP") functions)
    where
      by_group :
          (o : Option Algebra)
          → Perm
              (states_in (elim o as (λ o. Response) [
                | some (group_by k) ↦ grouped_result h k states functions c
                | _ ↦ ungrouped_result h states functions c
              ]))
              states
      by_group (some (group_by k)) = grouped_result-Perm k states functions c s
      by_group none = ungrouped_result-Perm states functions c
      by_group (some _) = ungrouped_result-Perm states functions c

  ordered_lem :
      (states : Map Uuid Entity) (functions : Map Text Algebra) (k : Text) (ord : Order)
      → order_alone (get (text "ORDER") functions) (get (text "GROUP") functions) ≡ some (k, ord)
      → ungrouped_result h states functions false
        ≡ Response.order (sort_states h.float64 k ord states)
  unfolding counted ungrouped_result sort_states
  ordered_lem states functions k ord e = rw (e, ungrouped_result) refl

  ungrouped_lem :
      (states : Map Uuid Entity) (functions : Map Text Algebra) (c : Bool)
      → get (text "GROUP") functions ≡ none
      → get_result_after_manipulation h states functions c ≡ ungrouped_result h states functions c
  unfolding get_result_after_manipulation ungrouped_result
  ungrouped_lem states functions c g = rw (g, get_result_after_manipulation) refl

  -- ORDER without GROUP and COUNT on a key whose values are integers or missing answers the states
  -- rearranged so that no value is below one before it for :asc, or above one before it for :desc;
  -- a missing value is below every integer.
  pub get_result-Ascends :
      (states : Map Uuid Entity) (functions : Map Text Algebra) (k : Text) (ord : Order)
      → get (text "ORDER") functions ≡ some (order_by k ord)
      → get (text "GROUP") functions ≡ none
      → AreIntegers k states
      → (sorted : List (Uuid × Entity)) × (get_result_after_manipulation h states functions false
          ≡ Response.order sorted)
        × Perm sorted states
        × Ascends (goes_first k ord) sorted
  unfolding order_alone
  get_result-Ascends states functions k ord o g a = (
    sort_states h.float64 k ord states,
    ungrouped_lem states functions false g ∙ ordered_lem states functions k ord (rw (o, g) refl),
    sort_states-Perm h.float64 k ord states,
    sort_states-Ascends h.float64 k ord states a,
  )

  ungrouped_result-count :
      (states : Map Uuid Entity) (functions : Map Text Algebra)
      → ungrouped_result h states functions true
        ≡ Response.with_count
            (count_response (length states) (ungrouped_result h states functions false))
  unfolding ungrouped_result counted
  ungrouped_result-count states functions =
      elim (Option-cases
        (order_alone (get (text "ORDER") functions) (get (text "GROUP") functions))) [
          | inl n ↦ rw (n, ungrouped_result) refl
          | inr (p, e) ↦ rw (e, ungrouped_result) refl
        ]

  -- COUNT without GROUP adds the number of states, and changes the answer in no other way.
  pub get_result-count :
      (states : Map Uuid Entity) (functions : Map Text Algebra)
      → get (text "GROUP") functions ≡ none
      → get_result_after_manipulation h states functions true
        ≡ Response.with_count (
            count_response (length states) (get_result_after_manipulation h states functions false))
  get_result-count states functions g =
      rw (ungrouped_lem states functions true g, ungrouped_lem states functions false g)
        (ungrouped_result-count states functions)
