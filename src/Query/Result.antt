-- ===== src/Query/Result.antt =====
-- ORDER, GROUP and COUNT: `get_result_after_manipulation` and
-- `get_result_after_manipulation_for_options` of woori-db/src/core/query.rs. Each call of sort_by
-- works on a copy, so that both directions are one function.
pub mod Conserved
use wooridb.Base.{
  ℕ, Bool, Option, none, some, List, [], ◌∷◌, Text, text, text_key, length, if◌then◌else◌,
}
use wooridb.Base.Map.{Map, get}
use wooridb.Wql.Types.{Entity, Uuid}
use wooridb.Wql.Ast.{Algebra, Order, order_by, group_by}
use wooridb.Host.{Host}
use wooridb.Query.Response.{Response, count_response}
use wooridb.Query.Ordering.{sort_states}
use wooridb.Query.Groups.{group_loop, map_groups, group_value, option_group_value}

unfoldable pub counted : Bool → ℕ → Response → Response
counted should_count size response =
    if should_count then Response.with_count (count_response size response) else response

-- if let (Some(Algebra::OrderBy(k, ord)), None)
unfoldable pub order_alone : Option Algebra → Option Algebra → Option (Text × Order)
order_alone (some (order_by k ord)) none = some (k, ord)
order_alone _ _ = none

-- filter(is_some), then unwrap
unfoldable pub somes : Map Uuid (Option Entity) → List (Uuid × Entity)
somes [] = []
somes ((id, none) ∷ states) = somes states
somes ((id, some state) ∷ states) = (id, state) ∷ somes states

module _ (h : Host) where
  unfoldable pub grouped_result : Text → Map Uuid Entity → Map Text Algebra → Bool → Response
  unfolding group_loop group_value map_groups sort_states counted
  grouped_result k states functions should_count =
      let groups = group_loop (group_value h k) states [] in
      elim (get (text "ORDER") functions) [
        | some (order_by j ord) ↦
            Response.ordered_group_by (map_groups (sort_states h.float64 j ord) groups)
        | _ ↦ counted should_count (length groups) (Response.group_by groups)
      ]

  unfoldable pub ungrouped_result : Map Uuid Entity → Map Text Algebra → Bool → Response
  unfolding sort_states counted order_alone
  ungrouped_result states functions should_count =
      elim (order_alone (get (text "ORDER") functions) (get (text "GROUP") functions)) [
        | some (j, ord) ↦
            counted should_count (length states)
              (Response.order (sort_states h.float64 j ord states))
        | none ↦ counted should_count (length states) (Response.all states)
      ]

  unfoldable pub get_result_after_manipulation :
      Map Uuid Entity → Map Text Algebra → Bool → Response
  unfolding grouped_result ungrouped_result
  get_result_after_manipulation states functions should_count =
      elim (get (text "GROUP") functions) [
        | some (group_by k) ↦ grouped_result k states functions should_count
        | _ ↦ ungrouped_result states functions should_count
      ]

  unfoldable pub grouped_options :
      Text → Map Uuid (Option Entity) → Map Text Algebra → Bool → Response
  unfolding group_loop option_group_value map_groups sort_states counted somes
  grouped_options k states functions should_count =
      let groups = group_loop (option_group_value h k) states [] in
      elim (get (text "ORDER") functions) [
        | some (order_by j ord) ↦
            Response.ordered_group_by
              (map_groups (λ g. sort_states h.float64 j ord (somes g)) groups)
        | _ ↦ counted should_count (length groups) (Response.option_group_by groups)
      ]

  unfoldable pub ungrouped_options : Map Uuid (Option Entity) → Map Text Algebra → Bool → Response
  unfolding sort_states counted somes order_alone
  ungrouped_options states functions should_count =
      elim (order_alone (get (text "ORDER") functions) (get (text "GROUP") functions)) [
        | some (j, ord) ↦
            counted should_count (length (somes states))
              (Response.order (sort_states h.float64 j ord (somes states)))
        | none ↦ counted should_count (length states) (Response.option_select states)
      ]

  unfoldable pub get_result_after_manipulation_for_options :
      Map Uuid (Option Entity) → Map Text Algebra → Bool → Response
  unfolding grouped_options ungrouped_options
  get_result_after_manipulation_for_options states functions should_count =
      elim (get (text "GROUP") functions) [
        | some (group_by k) ↦ grouped_options k states functions should_count
        | _ ↦ ungrouped_options states functions should_count
      ]
