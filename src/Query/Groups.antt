-- ===== src/Query/Groups.antt =====
-- GROUP of woori-db/src/core/query.rs: the groups, under the texts of their values.
pub mod Partition
use wooridb.Base.{Option, none, some, List, [], ◌∷◌, Text, text_key}
use wooridb.Base.Map.{Map, get, insert}
use wooridb.Base.Sorted as Sorted
use wooridb.Wql.Types.{Entity, Uuid, nil}
use wooridb.Host.{Host}
use wooridb.Query.Dedup.{value_or_nil}

module _ {ℓ} {A : Type ℓ} where
  -- entry(d).or_insert_with(BTreeMap::new)
  unfoldable pub group_at : Text → Map Text (Map Uuid A) → Map Uuid A
  group_at d groups = elim (get d groups) [ none ↦ [] | some g ↦ g ]

  -- The loop: `value` is the text of a state's value.
  unfoldable pub group_loop :
      (A → Text) → Map Uuid A → Map Text (Map Uuid A) → Map Text (Map Uuid A)
  unfolding group_at Sorted.insert
  group_loop value [] groups = groups
  group_loop value ((id, state) ∷ states) groups =
      let d = value state in
      group_loop value states (insert d (Sorted.insert id state (group_at d groups)) groups)

  unfoldable pub map_groups {κ} : {B : Type κ} → (A → B) → Map Text A → Map Text B
  map_groups f [] = []
  map_groups f ((d, g) ∷ groups) = (d, f g) ∷ map_groups f groups

module _ (h : Host) where
  unfoldable pub group_value : Text → Entity → Text
  unfolding value_or_nil
  group_value k state = h.debug (value_or_nil k state)

  unfoldable pub option_group_value : Text → Option Entity → Text
  unfolding group_value
  option_group_value k none = h.debug nil
  option_group_value k (some state) = group_value k state
