-- ===== src/Query/States/Shown.antt =====
-- Which states and which of their values a query shows.
use wooridb.Base.{
  ℕ, ◌-◌, ◌<◌, false, not, ◌&&◌, Option, none, some, List, [], ◌∷◌, Text, text, text_eq_iff,
  text_key, nat_key, length, take, drop, take_all, arith, ◌≡◌, refl, ap, if◌then◌else◌,
  Option-cases, inl, inr,
}
use wooridb.Base.Map.{Map, get}
use wooridb.Base.Int.{full_range}
use wooridb.Wql.Types.{Entity, Types, Uuid, is_hash}
use wooridb.Wql.Ast.{Algebra}
use wooridb.Model.{StateInfo}
use wooridb.Host.{Host}
use wooridb.Actors.Content.Merging.{HasDistinctKeys}
use wooridb.Query.States.{
  wanted, filter_keys_and_hash, states_of, registries_to_states, get_limit_offset_count,
}

-- A value that is no hash, under a key that is asked for.
abbrev pub shown_at : Option (List Text) → Text → Option Types → Option Types
shown_at keys k none = none
shown_at keys k (some v) = if not (is_hash v) && wanted keys k then some v else none

filter-none :
    (state : Entity) (keys : Option (List Text)) (k : Text)
    → get k state ≡ none
    → get k (filter_keys_and_hash state keys) ≡ none
unfolding filter_keys_and_hash get
filter-none [] keys k n = refl
filter-none ((j, v) ∷ state) keys k n = ground (arith, filter-none state keys k)

-- The state that is shown has exactly the values that are no hash and whose key is asked for.
pub get-filter_keys_and_hash :
    (state : Entity) (keys : Option (List Text)) (k : Text)
    → HasDistinctKeys state
    → get k (filter_keys_and_hash state keys) ≡ shown_at keys k (get k state)
unfolding filter_keys_and_hash get
get-filter_keys_and_hash [] keys k d = refl
get-filter_keys_and_hash ((j, v) ∷ state) keys k d = ground (
  arith,
  text_eq_iff j k,
  get-filter_keys_and_hash state keys k d.1,
  filter-none state keys k,
  d.0,
)

filter-plain :
    (state : Entity) (keys : Option (List Text)) (k : Text) (v : Types)
    → get k (filter_keys_and_hash state keys) ≡ some v
    → is_hash v ≡ false
unfolding filter_keys_and_hash get
filter-plain [] keys k v g = ground arith
filter-plain ((j, w) ∷ state) keys k v g = ground (arith, filter-plain state keys k v)

module _ (h : Host) where
  states_of-plain :
      (keys : Option (List Text)) (registries : Map Uuid StateInfo) (states : Map Uuid Entity)
      (id : Uuid) (state : Entity) (k : Text) (v : Types)
      → states_of h keys registries ≡ some states
      → get id states ≡ some state
      → get k state ≡ some v
      → is_hash v ≡ false
  unfolding states_of get
  states_of-plain keys [] states id state k v e g g' = ground arith
  states_of-plain keys ((j, info) ∷ registries) states id state k v e g g' =
      elim (Option-cases (h.deserialize info.1)) [
        | inl n ↦ ground arith
        | inr (s, p) ↦ elim (Option-cases (states_of h keys registries)) [
          | inl n ↦ ground arith
          | inr (rest, q) ↦
              ground (
                arith,
                filter-plain s keys k v,
                states_of-plain keys registries rest id state k v q,
              )
        ]
      ]

  -- No value that a query shows is a hash, so that what was encrypted stays in the store.
  pub registries_to_states-plain :
      (registries : Map Uuid StateInfo) (keys : Option (List Text)) (offset limit : ℕ)
      (states : Map Uuid Entity) (id : Uuid) (state : Entity) (k : Text) (v : Types)
      → registries_to_states h registries keys offset limit ≡ some states
      → get id states ≡ some state
      → get k state ≡ some v
      → is_hash v ≡ false
  unfolding registries_to_states
  registries_to_states-plain registries keys offset limit states id state k v =
      states_of-plain keys (take limit (drop offset registries)) states id state k v

  -- Without LIMIT and OFFSET the page that is asked for holds every state, if there are fewer
  -- than 2^64 of them.
  pub get_limit_offset_count-all :
      (registries : Map Uuid StateInfo) (keys : Option (List Text)) (functions : Map Text Algebra)
      → get (text "LIMIT") functions ≡ none
      → get (text "OFFSET") functions ≡ none
      → length registries < full_range
      → registries_to_states h registries keys
          (get_limit_offset_count functions).1
          (get_limit_offset_count functions).0
        ≡ states_of h keys registries
  unfolding get_limit_offset_count registries_to_states
  get_limit_offset_count-all registries keys functions l o lt =
      rw (l, o) (ap (states_of h keys) (take_all (full_range - 1) registries (omega arith)))
