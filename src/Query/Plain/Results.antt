-- ===== src/Query/Plain/Results.antt =====
-- DEDUP, ORDER, GROUP and COUNT show no hash that is not in the states.
use wooridb.Base.{
  ℕ, Bool, true, false, Option, none, some, List, [], ◌∷◌, Text, text, text_key, length, all, arith,
  ◌≡◌, refl, if◌then◌else◌, Option-cases, inl, inr,
}
use wooridb.Base.Map.{Map, get}
use wooridb.Wql.Types.{Entity, Uuid}
use wooridb.Wql.Ast.{Algebra, Order, order_by, group_by, dedup}
use wooridb.Host.{Host}
use wooridb.Query.Response.{Response}
use wooridb.Query.Dedup.{
  dedup_loop, dedup_key, dedup_states, dedup_option_states, fresh_nil, fresh_plain, fresh_option,
  is_nil_form,
}
use wooridb.Query.Ordering.{goes_before, sort_states}
use wooridb.Query.Groups.{group_loop, map_groups, group_value, option_group_value}
use wooridb.Query.Result.{
  counted, somes, order_alone, grouped_result, ungrouped_result, get_result_after_manipulation,
  grouped_options, ungrouped_options, get_result_after_manipulation_for_options,
}
use wooridb.Query.Plain.{
  plain, plain_option, all_plain, all_plain_options, plain_response, all_values, all-sort_by,
}
use wooridb.Query.Plain.Pages.{all-dedup_loop, all-groups}

counted-plain :
    (c : Bool) (n : ℕ) (r : Response)
    → plain_response r ≡ true
    → plain_response (counted c n r) ≡ true
unfolding counted
counted-plain true n r p = p
counted-plain false n r p = p

somes-plain :
    (m : Map Uuid (Option Entity)) → all_plain_options m ≡ true → all_plain (somes m) ≡ true
unfolding somes all
somes-plain [] a = refl
somes-plain ((id, none) ∷ m) a = somes-plain m a
somes-plain ((id, some s) ∷ m) a = ground (arith, somes-plain m, a)

module _ {ℓ κ} {A : Type ℓ} {B : Type κ} (p : A → Bool) (q : B → Bool) where
  map_groups-all :
      (f : A → B) (groups : Map Text A)
      → ((a : A) → p a ≡ true → q (f a) ≡ true)
      → all_values p groups ≡ true
      → all_values q (map_groups f groups) ≡ true
  unfolding map_groups all
  map_groups-all f [] k a = refl
  map_groups-all f ((d, g) ∷ groups) k a = ground (arith, map_groups-all f groups k, k g, a)

module _ (h : Host) where
  sort_states-plain :
      (k : Text) (ord : Order) (states : List (Uuid × Entity))
      → all_plain states ≡ true
      → all_plain (sort_states h.float64 k ord states) ≡ true
  unfolding sort_states
  sort_states-plain k ord states = all-sort_by (λ p. plain p.1) (goes_before h.float64 k ord) states

  pub dedup_states-plain :
      (states r : Map Uuid Entity) (functions : Map Text Algebra)
      → all_plain states ≡ true
      → dedup_states h states functions ≡ some r
      → all_plain r ≡ true
  unfolding dedup_states
  dedup_states-plain states r functions a = by (get (text "DEDUP") functions)
    where
      with_key :
          (k : Text) (key : Option Text)
          → elim key as (λ _. Option (Map Uuid Entity)) [
            | none ↦ none
            | some key ↦
                some (
                  dedup_loop (if is_nil_form k then fresh_nil h key else fresh_plain h k) [] states)
          ]
            ≡ some r
          → all_plain r ≡ true
      with_key k none e = ground (arith, e)
      with_key k (some key) e = ground (
        arith,
        e,
        all-dedup_loop plain (if is_nil_form k then fresh_nil h key else fresh_plain h k) [] states
            a,
      )

      by :
          (o : Option Algebra)
          → elim o as (λ _. Option (Map Uuid Entity)) [
            | some (dedup k) ↦ elim (dedup_key k) [
              | none ↦ none
              | some key ↦ some (
                  dedup_loop (if is_nil_form k then fresh_nil h key else fresh_plain h k) [] states)
            ]
            | _ ↦ some states
          ]
            ≡ some r
          → all_plain r ≡ true
      by (some (dedup k)) e = with_key k (dedup_key k) e
      by none e = ground (arith, e, a)
      by (some _) e = ground (arith, e, a)

  pub dedup_option_states-plain :
      (states r : Map Uuid (Option Entity)) (functions : Map Text Algebra)
      → all_plain_options states ≡ true
      → dedup_option_states h states functions ≡ some r
      → all_plain_options r ≡ true
  unfolding dedup_option_states
  dedup_option_states-plain states r functions a = by (get (text "DEDUP") functions)
    where
      with_key :
          (k : Text) (key : Option Text)
          → elim key as (λ _. Option (Map Uuid (Option Entity))) [
            | none ↦ none
            | some key ↦ some (dedup_loop (fresh_option h k key) [] states)
          ]
            ≡ some r
          → all_plain_options r ≡ true
      with_key k none e = ground (arith, e)
      with_key k (some key) e =
          ground (arith, e, all-dedup_loop plain_option (fresh_option h k key) [] states a)

      by :
          (o : Option Algebra)
          → elim o as (λ _. Option (Map Uuid (Option Entity))) [
            | some (dedup k) ↦ elim (dedup_key k) [
              | none ↦ none
              | some key ↦ some (dedup_loop (fresh_option h k key) [] states)
            ]
            | _ ↦ some states
          ]
            ≡ some r
          → all_plain_options r ≡ true
      by (some (dedup k)) e = with_key k (dedup_key k) e
      by none e = ground (arith, e, a)
      by (some _) e = ground (arith, e, a)

  grouped_result-plain :
      (k : Text) (states : Map Uuid Entity) (functions : Map Text Algebra) (c : Bool)
      → all_plain states ≡ true
      → plain_response (grouped_result h k states functions c) ≡ true
  unfolding grouped_result
  grouped_result-plain k states functions c a = by (get (text "ORDER") functions)
    where
      groups : Map Text (Map Uuid Entity)
      groups = group_loop (group_value h k) states []

      groups-plain : all_values all_plain groups ≡ true
      groups-plain = all-groups plain (group_value h k) states a

      by :
          (o : Option Algebra)
          → plain_response (elim o as (λ _. Response) [
            | some (order_by j ord) ↦
                Response.ordered_group_by (map_groups (sort_states h.float64 j ord) groups)
            | _ ↦ counted c (length groups) (Response.group_by groups)
          ])
            ≡ true
      by (some (order_by j ord)) =
          map_groups-all all_plain all_plain (sort_states h.float64 j ord) groups
            (λ g. sort_states-plain j ord g) groups-plain
      by none = counted-plain c (length groups) (Response.group_by groups) groups-plain
      by (some _) = counted-plain c (length groups) (Response.group_by groups) groups-plain

  ungrouped_result-plain :
      (states : Map Uuid Entity) (functions : Map Text Algebra) (c : Bool)
      → all_plain states ≡ true
      → plain_response (ungrouped_result h states functions c) ≡ true
  unfolding ungrouped_result
  ungrouped_result-plain states functions c a =
      elim (Option-cases
        (order_alone (get (text "ORDER") functions) (get (text "GROUP") functions))) [
          | inl n ↦
              rw (n, ungrouped_result) (counted-plain c (length states) (Response.all states) a)
          | inr ((k, ord), e) ↦
              rw (e, ungrouped_result)
                (counted-plain c (length states)
                  (Response.order (sort_states h.float64 k ord states))
                  (sort_states-plain k ord states a))
        ]

  pub get_result-plain :
      (states : Map Uuid Entity) (functions : Map Text Algebra) (c : Bool)
      → all_plain states ≡ true
      → plain_response (get_result_after_manipulation h states functions c) ≡ true
  unfolding get_result_after_manipulation
  get_result-plain states functions c a = by (get (text "GROUP") functions)
    where
      by :
          (o : Option Algebra)
          → plain_response (elim o as (λ _. Response) [
            | some (group_by k) ↦ grouped_result h k states functions c
            | _ ↦ ungrouped_result h states functions c
          ])
            ≡ true
      by (some (group_by k)) = grouped_result-plain k states functions c a
      by none = ungrouped_result-plain states functions c a
      by (some _) = ungrouped_result-plain states functions c a

  grouped_options-plain :
      (k : Text) (states : Map Uuid (Option Entity)) (functions : Map Text Algebra) (c : Bool)
      → all_plain_options states ≡ true
      → plain_response (grouped_options h k states functions c) ≡ true
  unfolding grouped_options
  grouped_options-plain k states functions c a = by (get (text "ORDER") functions)
    where
      groups : Map Text (Map Uuid (Option Entity))
      groups = group_loop (option_group_value h k) states []

      groups-plain : all_values all_plain_options groups ≡ true
      groups-plain = all-groups plain_option (option_group_value h k) states a

      by :
          (o : Option Algebra)
          → plain_response (elim o as (λ _. Response) [
            | some (order_by j ord) ↦
                Response.ordered_group_by
                  (map_groups (λ g. sort_states h.float64 j ord (somes g)) groups)
            | _ ↦ counted c (length groups) (Response.option_group_by groups)
          ])
            ≡ true
      by (some (order_by j ord)) =
          map_groups-all all_plain_options all_plain (λ g. sort_states h.float64 j ord (somes g))
            groups (λ g b. sort_states-plain j ord (somes g) (somes-plain g b)) groups-plain
      by none = counted-plain c (length groups) (Response.option_group_by groups) groups-plain
      by (some _) = counted-plain c (length groups) (Response.option_group_by groups) groups-plain

  ungrouped_options-plain :
      (states : Map Uuid (Option Entity)) (functions : Map Text Algebra) (c : Bool)
      → all_plain_options states ≡ true
      → plain_response (ungrouped_options h states functions c) ≡ true
  unfolding ungrouped_options
  ungrouped_options-plain states functions c a =
      elim (Option-cases
        (order_alone (get (text "ORDER") functions) (get (text "GROUP") functions))) [
          | inl n ↦
              rw (n, ungrouped_options)
                (counted-plain c (length states) (Response.option_select states) a)
          | inr ((k, ord), e) ↦
              rw (e, ungrouped_options)
                (counted-plain c (length (somes states))
                  (Response.order (sort_states h.float64 k ord (somes states)))
                  (sort_states-plain k ord (somes states) (somes-plain states a)))
        ]

  pub get_result_for_options-plain :
      (states : Map Uuid (Option Entity)) (functions : Map Text Algebra) (c : Bool)
      → all_plain_options states ≡ true
      → plain_response (get_result_after_manipulation_for_options h states functions c) ≡ true
  unfolding get_result_after_manipulation_for_options
  get_result_for_options-plain states functions c a = by (get (text "GROUP") functions)
    where
      by :
          (o : Option Algebra)
          → plain_response (elim o as (λ _. Response) [
            | some (group_by k) ↦ grouped_options h k states functions c
            | _ ↦ ungrouped_options h states functions c
          ])
            ≡ true
      by (some (group_by k)) = grouped_options-plain k states functions c a
      by none = ungrouped_options-plain states functions c a
      by (some _) = ungrouped_options-plain states functions c a
