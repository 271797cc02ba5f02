-- ===== src/Tx/Insert.antt =====
-- INSERT: `insert_controller`.
use wooridb.Base.{ℕ, Option, none, some, [], ◌++◌, Text, text}
use wooridb.Wql.Types.{Entity, Uuid}
use wooridb.Model.{serialization}
use wooridb.Host.{Host}
use wooridb.Server.{send, World, Act, pure, gets, or_fail, ◌>>=◌, ◌>>◌}
use wooridb.Actors.Files.{write_to_log, send_local_data}
use wooridb.Actors.Lines.{insert_entity_content}
use wooridb.Actors.Uniques.{check_for_unique_keys}
use wooridb.Actors.Encrypts.{encrypt_content}
use wooridb.Tx.Steps.{
  TxType, TxResponse, tx_time, require_entity, restart_if_empty, insert_entry, advance_counter,
}

-- `content.uuid.map_or_else(Uuid::new_v4, |id| id)`
abbrev pub id_or_fresh : Option Uuid → World → Uuid
id_or_fresh none w = w.fresh
id_or_fresh (some id) w = id

module _ (h : Host) where
  -- What follows the checks: write the event, register it, and move the counter from the offset
  -- that was read first.
  unfoldable pub commit_insert : ℕ → Text → Entity → Text → Uuid → Act (Unit {0})
  commit_insert offset entity content content_log id = do
    date ← gets (λ w. w.now)
    written ← send (write_to_log h (insert_entity_content h date id entity content_log))
    offset ← restart_if_empty written.1 offset
    m ←
        insert_entry h entity id
          (record { file_name = h.file_name date; offset = offset; bytes_length = written.0 })
          content
    send (send_local_data h m)
    advance_counter h written.0

  unfoldable pub insert_controller : Text → Entity → Option Uuid → Act TxResponse
  insert_controller entity content uuid = do
    datetime ← tx_time content
    offset ← gets (λ w. w.bytes_counter)
    encrypted ← send (encrypt_content h entity content datetime)
    content_log ← or_fail serialization (h.entity_to_ron encrypted)
    require_entity entity
    send (check_for_unique_keys h entity encrypted)
    id ← gets (id_or_fresh uuid)
    commit_insert offset entity encrypted content_log id
    pure (record {
      tx_type = TxType.insert;
      entity = entity;
      uuid = some id;
      state = [];
      message = text "Entity " ++ (entity ++ (text " inserted with Uuid " ++ h.uuid_to_string id));
    })
