-- ===== src/Query/States.antt =====
-- `filter_keys_and_hash`, `registries_to_states` and `get_limit_offset_count`.
pub mod Shown
use wooridb.Base.{
  ℕ, ◌-◌, Bool, true, false, not, ◌&&◌, Option, none, some, List, [], ◌∷◌, Text, text, text_key,
  take, drop, if◌then◌else◌,
}
use wooridb.Base.Map.{Map, get}
use wooridb.Base.Int.{full_range}
use wooridb.Wql.Types.{Entity, Uuid, is_hash}
use wooridb.Wql.Ast.{Algebra, limit as limit_of, offset as offset_of, count as count_of}
use wooridb.Model.{StateInfo}
use wooridb.Host.{Host}
use wooridb.Actors.Uniques.{contains}

-- No keys stand for all keys.
unfoldable pub wanted : Option (List Text) → Text → Bool
unfolding contains
wanted none k = true
wanted (some keys) k = contains k keys

unfoldable pub filter_keys_and_hash : Entity → Option (List Text) → Entity
unfolding wanted is_hash
filter_keys_and_hash [] keys = []
filter_keys_and_hash ((k, v) ∷ state) keys =
    let rest = filter_keys_and_hash state keys in
    if not (is_hash v) && wanted keys k then (k, v) ∷ rest else rest

module _ (h : Host) where
  -- The loop's body, for each registry. `none` is the panic of `unwrap`. The ids ascend, so that
  -- each insertion is at the end.
  unfoldable pub states_of : Option (List Text) → Map Uuid StateInfo → Option (Map Uuid Entity)
  unfolding filter_keys_and_hash
  states_of keys [] = some []
  states_of keys ((id, info) ∷ registries) =
      let rest = states_of keys registries in
      elim (h.deserialize info.1) [
        | none ↦ none
        | some state ↦ elim rest [
          | none ↦ none
          | some states ↦ some ((id, filter_keys_and_hash state keys) ∷ states)
        ]
      ]

  unfoldable pub registries_to_states :
      Map Uuid StateInfo → Option (List Text) → ℕ → ℕ → Option (Map Uuid Entity)
  unfolding states_of
  registries_to_states registries keys offset limit =
      states_of keys (take limit (drop offset registries))

abbrev limit_in : Option Algebra → ℕ
limit_in (some (limit_of l)) = l
limit_in _ = full_range - 1

abbrev offset_in : Option Algebra → ℕ
offset_in (some (offset_of o)) = o
offset_in _ = 0

abbrev pub count_in : Option Algebra → Bool
count_in (some count_of) = true
count_in _ = false

-- The limit, the offset, and whether to count. `usize::MAX` stands for no limit.
unfoldable pub get_limit_offset_count : Map Text Algebra → ℕ × ℕ × Bool
get_limit_offset_count functions = (
  limit_in (get (text "LIMIT") functions),
  offset_in (get (text "OFFSET") functions),
  count_in (get (text "COUNT") functions),
)
