-- ===== src/Tx/Delete.antt =====
-- DELETE: `delete_controller`.
use wooridb.Base.{Option, none, some, [], ◌++◌, Text, text}
use wooridb.Wql.Types.{Entity, Uuid}
use wooridb.Model.{DataRegister, StateInfo, serialization, invalid_uuid}
use wooridb.Host.{Host}
use wooridb.Server.{send, Act, pure, gets, or_fail, ◌>>=◌, ◌>>◌}
use wooridb.Actors.Files.{read_log}
use wooridb.Actors.Lines.{delete_entity_content}
use wooridb.Actors.State.{state, previous_registry}
use wooridb.Tx.Steps.{TxType, TxResponse, require_uuid, fetch_entry}
use wooridb.Tx.Update.{commit_update}

module _ (h : Host) where
  -- `state_to_be`: the state before the last event, and the register of it. After an INSERT
  -- alone this is the empty state.
  unfoldable pub state_to_be : Text → Uuid → Option StateInfo → Act (Entity × DataRegister)
  state_to_be entity id (some info) = do
    state_str ← send (read_log h info.0)
    s ← send (state h state_str)
    pure (s, info.0)
  state_to_be entity id none = do insert_reg ← fetch_entry entity id; pure ([], insert_reg.0)

  unfoldable pub delete_controller : Text → Text → Act TxResponse
  delete_controller entity id = do
    uuid ← or_fail invalid_uuid (h.uuid_from_str id)
    offset ← gets (λ w. w.bytes_counter)
    require_uuid entity uuid
    previous_entry ← fetch_entry entity uuid
    previous_state_str ← send (read_log h previous_entry.0)
    two_registries_ago ← send (previous_registry h previous_state_str)
    to_be ← state_to_be entity uuid two_registries_ago
    content_log ← or_fail serialization (h.entity_to_ron to_be.0)
    previous_register_log ← or_fail serialization (h.register_to_ron to_be.1)
    now ← gets (λ w. w.now)
    commit_update h offset entity uuid
        (delete_entity_content h now uuid entity content_log previous_register_log) to_be.0
    pure (record {
      tx_type = TxType.delete;
      entity = entity;
      uuid = some uuid;
      state = [];
      message = text "Entity " ++ (entity ++ (text " with Uuid " ++ (id ++ text " deleted")));
    })
