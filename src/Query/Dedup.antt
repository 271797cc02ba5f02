-- ===== src/Query/Dedup.antt =====
-- DEDUP: `dedup_states` and `dedup_option_states` of woori-db/src/core/query.rs.
pub mod Firsts
use wooridb.Base.{
  Bool, true, false, not, ◌&&◌, Option, none, some, List, [], ◌∷◌, Text, text, text_key, drop,
  if◌then◌else◌,
}
use wooridb.Base.Map.{Map, get}
use wooridb.Base.Strings.{starts_with}
use wooridb.Wql.Types.{Types, Entity, Uuid, nil, types_eq}
use wooridb.Wql.Ast.{Algebra, dedup}
use wooridb.Host.{Host}
use wooridb.Actors.State.{drop_last}
use wooridb.Actors.Uniques.{contains}

unfoldable pub is_nil_form : Text → Bool
unfolding starts_with
is_nil_form k = starts_with (text "NIL(") k

-- &k[4..k.len() - 1] of `NIL(key)`, or k itself. `none` is a panic.
unfoldable pub dedup_key : Text → Option Text
unfolding is_nil_form drop_last
dedup_key k = if is_nil_form k then drop_last (drop 4 k) else some k

-- state.get(k).unwrap_or(&Types::Nil)
unfoldable pub value_or_nil : Text → Entity → Types
value_or_nil k state = elim (get k state) [ none ↦ nil | some v ↦ v ]

unfoldable pub unseen : List Text → Text → Option Text
unfolding contains
unseen set d = if contains d set then none else some d

module _ {ℓ} {A : Type ℓ} where
  -- The loop: `fresh set state` is what goes into `set` if the state is kept.
  unfoldable pub dedup_loop : (List Text → A → Option Text) → List Text → Map Uuid A → Map Uuid A
  dedup_loop fresh set [] = []
  dedup_loop fresh set ((id, state) ∷ states) = elim (fresh set state) [
    | none ↦ dedup_loop fresh set states
    | some d ↦ (id, state) ∷ dedup_loop fresh (d ∷ set) states
  ]

module _ (h : Host) where
  unfoldable pub fresh_plain : Text → List Text → Entity → Option Text
  unfolding unseen value_or_nil
  fresh_plain k set state = unseen set (h.debug (value_or_nil k state))

  unfoldable pub fresh_nil : Text → List Text → Entity → Option Text
  unfolding unseen types_eq
  fresh_nil key set state = elim (get key state) [
    | none ↦ none
    | some v ↦ if types_eq h.float64 v nil then none else unseen set (h.debug v)
  ]

  unfoldable pub dedup_states : Map Uuid Entity → Map Text Algebra → Option (Map Uuid Entity)
  unfolding dedup_loop dedup_key is_nil_form
  dedup_states states functions = elim (get (text "DEDUP") functions) [
    | some (dedup k) ↦ elim (dedup_key k) [
      | none ↦ none
      | some key ↦
          some (dedup_loop (if is_nil_form k then fresh_nil key else fresh_plain k) [] states)
    ]
    | _ ↦ some states
  ]

  -- The first branch asks whether the set has the empty text, and the second does not ask for
  -- the plain form.
  unfoldable pub fresh_option : Text → Text → List Text → Option Entity → Option Text
  unfolding unseen types_eq value_or_nil is_nil_form contains
  fresh_option k key set none = none
  fresh_option k key set (some state) =
      let plain = unseen set (h.debug (value_or_nil key state)) in
      elim (get key state) [
        | none ↦ plain
        | some v ↦
            if is_nil_form k && not (types_eq h.float64 v nil) && not (contains [] set)
            then some (h.debug v)
            else plain
      ]

  unfoldable pub dedup_option_states :
      Map Uuid (Option Entity) → Map Text Algebra → Option (Map Uuid (Option Entity))
  unfolding dedup_loop dedup_key
  dedup_option_states states functions = elim (get (text "DEDUP") functions) [
    | some (dedup k) ↦ elim (dedup_key k) [
      | none ↦ none
      | some key ↦ some (dedup_loop (fresh_option k key) [] states)
    ]
    | _ ↦ some states
  ]
