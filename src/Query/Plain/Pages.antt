-- ===== src/Query/Plain/Pages.antt =====
-- The states that SELECT shows, through DEDUP, ORDER and GROUP.
use wooridb.Base.{
  Bool, true, Option, none, some, List, [], ◌∷◌, Text, text_key, nat_key, all, arith, ◌≡◌, refl,
  Option-cases, inl, inr,
}
use wooridb.Base.Map.{Map, get}
use wooridb.Base.Sorted as Sorted
use wooridb.Wql.Types.{Entity, Uuid}
use wooridb.Model.{StateInfo}
use wooridb.Host.{Host}
use wooridb.Query.States.{filter_keys_and_hash, states_of}
use wooridb.Query.Dedup.{dedup_loop}
use wooridb.Query.Groups.{group_at, group_loop}
use wooridb.Query.Select.{option_states}
use wooridb.Query.Plain.{
  plain, plain_option, all_plain, all_plain_options, all_values, all-insert, all-insert_sorted_map,
}

pub filter_keys_and_hash-plain :
    (state : Entity) (keys : Option (List Text)) → plain (filter_keys_and_hash state keys) ≡ true
unfolding filter_keys_and_hash all
filter_keys_and_hash-plain [] keys = refl
filter_keys_and_hash-plain ((k, v) ∷ state) keys =
    ground (arith, filter_keys_and_hash-plain state keys)

module _ (h : Host) where
  pub states_of-plain :
      (keys : Option (List Text)) (registries : Map Uuid StateInfo) (r : Map Uuid Entity)
      → states_of h keys registries ≡ some r
      → all_plain r ≡ true
  unfolding states_of all
  states_of-plain keys [] r e = ground (arith, e)
  states_of-plain keys ((id, info) ∷ registries) r e = elim (Option-cases (h.deserialize info.1)) [
    | inl n ↦ ground (arith, e, n)
    | inr (s, p) ↦ elim (Option-cases (states_of h keys registries)) [
      | inl n ↦ ground (arith, e, n, p)
      | inr (rest, q) ↦ ground (
        arith,
        e,
        p,
        q,
        filter_keys_and_hash-plain s keys,
        states_of-plain keys registries rest q,
      )
    ]
  ]

  pub option_states-plain :
      (keys : Option (List Text)) (registries : List (Uuid × Option StateInfo))
      (states r : Map Uuid (Option Entity))
      → all_plain_options states ≡ true
      → option_states h keys registries states ≡ some r
      → all_plain_options r ≡ true
  unfolding option_states
  option_states-plain keys [] states r a e = ground (arith, a, e)
  option_states-plain keys ((id, none) ∷ registries) states r a e =
      option_states-plain keys registries (Sorted.insert id none states) r
        (all-insert_sorted_map plain_option id none states refl a) e
  option_states-plain keys ((id, some info) ∷ registries) states r a e =
      elim (Option-cases (h.deserialize info.1)) [
        | inl n ↦ ground (arith, e, n)
        | inr (s, p) ↦
            option_states-plain keys registries
              (Sorted.insert id (some (filter_keys_and_hash s keys)) states) r
              (all-insert_sorted_map plain_option id (some (filter_keys_and_hash s keys)) states
                (filter_keys_and_hash-plain s keys) a)
              (ground (arith, e, p))
      ]

module _ {ℓ} {A : Type ℓ} (p : A → Bool) where
  pub all-dedup_loop :
      (fresh : List Text → A → Option Text) (set : List Text) (m : Map Uuid A)
      → all_values p m ≡ true
      → all_values p (dedup_loop fresh set m) ≡ true
  unfolding dedup_loop all
  all-dedup_loop fresh set [] a = refl
  all-dedup_loop fresh set ((id, s) ∷ m) a = elim (Option-cases (fresh set s)) [
    | inl n ↦ ground (arith, n, a, all-dedup_loop fresh set m)
    | inr (d, q) ↦ ground (arith, q, a, all-dedup_loop fresh (d ∷ set) m)
  ]

  all-group_at :
      (d : Text) (groups : Map Text (Map Uuid A))
      → all_values (λ g. all_values p g) groups ≡ true
      → all_values p (group_at d groups) ≡ true
  unfolding group_at all get
  all-group_at d [] a = refl
  all-group_at d ((e, g) ∷ groups) a = ground (arith, a, all-group_at d groups)

  all-group_loop :
      (value : A → Text) (m : Map Uuid A) (groups : Map Text (Map Uuid A))
      → all_values p m ≡ true
      → all_values (λ g. all_values p g) groups ≡ true
      → all_values (λ g. all_values p g) (group_loop value m groups) ≡ true
  unfolding group_loop all
  all-group_loop value [] groups a b = b
  all-group_loop value ((id, s) ∷ m) groups a b = all-group_loop value m _ (ground (arith, a)) (
      all-insert (λ g. all_values p g) (value s) (Sorted.insert id s (group_at (value s) groups))
        groups
        (all-insert_sorted_map p id s (group_at (value s) groups) (ground (arith, a))
          (all-group_at (value s) groups b))
        b)

  pub all-groups :
      (value : A → Text) (m : Map Uuid A)
      → all_values p m ≡ true
      → all_values (λ g. all_values p g) (group_loop value m []) ≡ true
  unfolding all
  all-groups value m a = all-group_loop value m [] a refl
