-- ===== src/Actors/Content.antt =====
-- UPDATE CONTENT on one key: `update_content_state` of woori-db/src/core/wql.rs.
pub mod Merging
use wooridb.Base.{Option, none, some, [], ◌∷◌, ◌++◌, Text, text_key}
use wooridb.Base.Map.{get, insert}
use wooridb.Base.Int.{◌+ℤ◌, wrap}
use wooridb.Wql.Types.{
  Types, char, integer, string, uuid, float, boolean, vector, precise, date_time, nil, Fields,
  empty, field, insert_field, append_items, default_values, Entity, Uuid, DateTime, Float64,
}

-- `m.iter().for_each(...)`: each pair of the new map overwrites or adds.
unfoldable pub merge_fields : Fields → Fields → Fields
merge_fields local empty = local
merge_fields local (field k v m) = merge_fields (insert_field k v local) m

module _ (f : Float64) where
  -- The local value comes first, the new one second. The sum of two integers wraps around, as in
  -- a release build; a debug build panics there.
  unfoldable pub merge : Types → Types → Types
  merge local (char c) = char c
  merge (integer local) (integer i) = integer (wrap (local +ℤ i))
  merge (float local) (integer i) = float (f.add local (f.of_int i))
  merge (string local) (string s) = string (local ++ s)
  merge local (uuid u) = uuid u
  merge (float local) (float x) = float (f.add local x)
  merge (integer local) (float x) = float (f.add (f.of_int local) x)
  merge local (boolean b) = boolean b
  merge (vector local) (vector v) = vector (append_items local v)
  merge (Types.map local) (Types.map m) = Types.map (merge_fields local m)
  merge local nil = nil
  merge local (precise p) = precise p
  merge local (date_time d) = date_time d
  merge local _ = local

  abbrev or_default : Uuid → DateTime → Types → Option Types → Types
  or_default fresh now v none = default_values fresh now v
  or_default fresh now v (some local) = local

  unfoldable pub update_content_state : Uuid → DateTime → Entity → Text → Types → Entity
  unfolding merge merge_fields
  update_content_state fresh now previous_state k v =
      insert k (merge (or_default fresh now v (get k previous_state)) v) previous_state

  -- `content.into_iter().for_each(...)`
  unfoldable pub update_content_states : Uuid → DateTime → Entity → Entity → Entity
  unfolding update_content_state
  update_content_states fresh now previous_state [] = previous_state
  update_content_states fresh now previous_state ((k, v) ∷ content) =
      update_content_states fresh now (update_content_state fresh now previous_state k v) content
