-- ===== src/Query/Select.antt =====
-- SELECT on the states as they are now: woori-db/src/core/registry.rs and the `select_` functions
-- of woori-db/src/controllers/query.rs. A mutex that is locked and released within a function
-- leaves the state as it was.
pub mod Shown
pub mod Refused
use wooridb.Base.{
  ℕ, Option, none, some, List, [], ◌∷◌, Text, text_key, nat_key, take, drop, if◌then◌else◌,
}
use wooridb.Base.Map.{Map, get}
use wooridb.Base.Sorted as Sorted
use wooridb.Wql.Types.{Entity, Uuid}
use wooridb.Wql.Ast.{Algebra}
use wooridb.Model.{
  StateInfo, LocalContext, lock_data, entity_not_created, uuid_not_created_for_entity,
}
use wooridb.Host.{Host}
use wooridb.Server.{World, ok, err, Act, pure, fail, unwrap, or_fail, ◌>>=◌}
use wooridb.Tx.Steps.{lock_local}
use wooridb.Query.Response.{Response}
use wooridb.Query.States.{filter_keys_and_hash, registries_to_states, get_limit_offset_count}
use wooridb.Query.Dedup.{dedup_states, dedup_option_states}
use wooridb.Query.Result.{get_result_after_manipulation, get_result_after_manipulation_for_options}

unfoldable pub get_registries : Text → Act (Map Uuid StateInfo)
get_registries entity = do
  local_data ← lock_local
  or_fail (entity_not_created entity) (get entity local_data)

unfoldable pub get_registry : Text → Uuid → Act StateInfo
get_registry entity id = do
  registries ← get_registries entity
  or_fail (uuid_not_created_for_entity entity id) (get id registries)

-- filter_map over the ids that are asked for: ids that are not there are left out.
unfoldable pub found : List Uuid → Map Uuid StateInfo → List (Uuid × Option StateInfo)
found [] registries = []
found (id ∷ ids) registries =
    let rest = found ids registries in
    elim (get id registries) [ none ↦ rest | some info ↦ (id, some info) ∷ rest ]

module _ (h : Host) where
  -- The loop over the page; `none` is the panic of `unwrap`.
  unfoldable pub option_states :
      Option (List Text)
      → List (Uuid × Option StateInfo)
      → Map Uuid (Option Entity)
      → Option (Map Uuid (Option Entity))
  unfolding filter_keys_and_hash Sorted.insert
  option_states keys [] states = some states
  option_states keys ((id, none) ∷ registries) states =
      option_states keys registries (Sorted.insert id none states)
  option_states keys ((id, some info) ∷ registries) states = elim (h.deserialize info.1) [
    | none ↦ none
    | some state ↦
        option_states keys registries
          (Sorted.insert id (some (filter_keys_and_hash state keys)) states)
  ]

  unfoldable pub select_id : Text → Uuid → Option (List Text) → Act Response
  select_id entity id keys = do
    registry ← get_registry entity id
    state ← unwrap (h.deserialize registry.1)
    pure (Response.id (filter_keys_and_hash state keys))

  unfoldable pub select_all_with_id : Text → Uuid → Act Response
  unfolding select_id
  select_all_with_id entity id = select_id entity id none

  unfoldable pub select_keys_with_id : Text → Uuid → List Text → Act Response
  unfolding select_id
  select_keys_with_id entity id keys = select_id entity id (some keys)

  unfoldable pub select_ids :
      Text → Option (List Text) → List Uuid → Map Text Algebra → Act Response
  select_ids entity keys ids functions =
      let (limit, offset, count) = get_limit_offset_count functions in
      do
        registries ← get_registries entity
        states ← unwrap (option_states keys (take limit (drop offset (found ids registries))) [])
        states ← unwrap (dedup_option_states h states functions)
        pure (get_result_after_manipulation_for_options h states functions count)

  unfoldable pub select_all_with_ids : Text → List Uuid → Map Text Algebra → Act Response
  unfolding select_ids
  select_all_with_ids entity ids functions = select_ids entity none ids functions

  unfoldable pub select_keys_with_ids :
      Text → List Text → List Uuid → Map Text Algebra → Act Response
  unfolding select_ids
  select_keys_with_ids entity keys ids functions = select_ids entity (some keys) ids functions

  unfoldable pub select_states : Text → Option (List Text) → Map Text Algebra → Act Response
  select_states entity keys functions =
      let (limit, offset, count) = get_limit_offset_count functions in
      do
        registries ← get_registries entity
        states ← unwrap (registries_to_states h registries keys offset limit)
        states ← unwrap (dedup_states h states functions)
        pure (get_result_after_manipulation h states functions count)

  unfoldable pub select_all : Text → Map Text Algebra → Act Response
  unfolding select_states
  select_all entity functions = select_states entity none functions

  unfoldable pub select_args : Text → List Text → Map Text Algebra → Act Response
  unfolding select_states
  select_args entity keys functions = select_states entity (some keys) functions
