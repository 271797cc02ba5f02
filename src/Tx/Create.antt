-- ===== src/Tx/Create.antt =====
-- CREATE ENTITY and EVICT: `create_controller`, `evict_controller`, `create_unique_controller` and
-- `create_encrypts_controller`.
use wooridb.Base.{
  Option, none, some, List, [], ◌∷◌, ◌++◌, Text, text, text_key, nat_key, if◌then◌else◌,
}
use wooridb.Base.Map
use wooridb.Wql.Types.{Uuid}
use wooridb.Model.{LocalContext, entity_already_created}
use wooridb.Host.{Host}
use wooridb.Server.{send, Act, fail, pure, gets, or_fail, ◌>>=◌, ◌>>◌}
use wooridb.Actors.Files.{write_to_log, send_local_data, write_to_uniques, write_to_encrypts}
use wooridb.Actors.Lines.{create_entity_line, evict_entity_content, evict_entity_id_content}
use wooridb.Actors.Uniques.{create_with_unique_keys}
use wooridb.Actors.Encrypts.{create_with_encryption}
use wooridb.Tx.Steps.{TxType, TxResponse, lock_local, put_local, restart_if_empty, advance_counter}

-- The first block: the new entity's tree is empty.
unfoldable pub create_tree : Text → Act LocalContext
create_tree entity = do
  m ← lock_local
  if Map.contains_key entity m
      then fail (entity_already_created entity)
      else (do put_local (Map.insert entity [] m); gets (λ w. w.local))

unfoldable pub remove_tree : Text → Act LocalContext
remove_tree entity = do m ← lock_local; put_local (Map.remove entity m); gets (λ w. w.local)

unfoldable pub remove_id : Text → Uuid → Act LocalContext
remove_id entity id = do
  m ← lock_local
  put_local
      (elim (Map.get entity m) [ none ↦ m | some ids ↦ Map.insert entity (Map.remove id ids) m ])
  gets (λ w. w.local)

module _ (h : Host) where
  unfoldable pub create_controller : Text → Act TxResponse
  create_controller entity = do
    m ← create_tree entity
    send (send_local_data h m)
    written ← send (write_to_log h (create_entity_line h entity))
    restart_if_empty written.1 0
    advance_counter h written.0
    pure (record {
      tx_type = TxType.create;
      entity = entity;
      uuid = none;
      state = [];
      message = text "Entity `" ++ (entity ++ text "` created");
    })

  unfoldable pub evict_controller : Text → Option Uuid → Act TxResponse
  evict_controller entity none = do
    now ← gets (λ w. w.now)
    written ← send (write_to_log h (evict_entity_content h now entity))
    restart_if_empty written.1 0
    advance_counter h written.0
    m ← remove_tree entity
    send (send_local_data h m)
    pure (record {
      tx_type = TxType.evict_entity_tree;
      entity = entity;
      uuid = none;
      state = [];
      message = text "Entity " ++ (entity ++ text " evicted");
    })
  evict_controller entity (some id) = do
    now ← gets (λ w. w.now)
    written ← send (write_to_log h (evict_entity_id_content h now entity id))
    restart_if_empty written.1 0
    advance_counter h written.0
    m ← remove_id entity id
    send (send_local_data h m)
    pure (record {
      tx_type = TxType.evict_entity;
      entity = entity;
      uuid = some id;
      state = [];
      message =
          text "Entity "
          ++ (entity ++ (text " with id " ++ (h.uuid_to_string id ++ text " evicted")));
    })

  -- `message_log` is the RON of the message: the entity and its keys.
  unfoldable pub create_unique_controller :
      (Text → List Text → Option Text) → Text → List Text → Act (Unit {0})
  create_unique_controller message_log entity [] = pure tt
  create_unique_controller message_log entity (k ∷ uniques) = do
    unique_log ← or_fail wooridb.Model.serialization (message_log entity (k ∷ uniques))
    send (write_to_uniques h unique_log)
    send (create_with_unique_keys h entity (k ∷ uniques))

  unfoldable pub create_encrypts_controller :
      (Text → List Text → Option Text) → Text → List Text → Act (Unit {0})
  create_encrypts_controller message_log entity [] = pure tt
  create_encrypts_controller message_log entity (k ∷ encrypts) = do
    encrypt_log ← or_fail wooridb.Model.serialization (message_log entity (k ∷ encrypts))
    send (write_to_encrypts h encrypt_log)
    send (create_with_encryption entity (k ∷ encrypts))
