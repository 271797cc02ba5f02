-- ===== src/Tx/Update.antt =====
-- UPDATE SET and UPDATE CONTENT: `update_set_controller` and `update_content_controller`.
use wooridb.Base.{ℕ, none, some, List, [], ◌∷◌, ◌++◌, Text, text, text_key, if◌then◌else◌}
use wooridb.Base.Map.{get, insert}
use wooridb.Wql.Types.{Entity, Uuid, date_time}
use wooridb.Model.{serialization, update_content_encrypt_keys}
use wooridb.Host.{Host}
use wooridb.Server.{send, Act, fail, pure, gets, or_fail, unwrap, ◌>>=◌, ◌>>◌}
use wooridb.Actors.Files.{write_to_log, send_local_data}
use wooridb.Actors.Lines.{update_set_entity_content, update_content_entity_content}
use wooridb.Actors.Uniques.{contains, check_for_unique_keys}
use wooridb.Actors.Encrypts.{lock_encryption, encrypt_content}
use wooridb.Actors.Content.{update_content_states}
use wooridb.Tx.Steps.{
  TxType, TxResponse, tx_time, require_uuid, fetch_entry, restart_if_empty, replace_entry,
  advance_counter,
}

-- `entry(k).or_insert_with(|| v.clone())`, then `*local_state = v`, for each pair
unfoldable pub set_states : Entity → Entity → Entity
set_states previous_state [] = previous_state
set_states previous_state ((k, v) ∷ content) = set_states (insert k v previous_state) content

-- The keys of the content that are encrypted for the entity.
unfoldable pub encrypted_keys : List Text → Entity → List Text
unfolding contains
encrypted_keys keys [] = []
encrypted_keys keys ((k, v) ∷ content) =
    let rest = encrypted_keys keys content in if contains k keys then k ∷ rest else rest

-- `if guard.contains_key(&args.entity) { ... return Err(...) }`
unfoldable pub refuse_encrypted : Text → Entity → Act (Unit {0})
unfolding lock_encryption encrypted_keys ◌>>=◌
refuse_encrypted entity content = do
  m ← lock_encryption
  elim (get entity m) [
    | none ↦ pure tt
    | some keys ↦ fail (update_content_encrypt_keys (encrypted_keys keys content))
  ]

module _ (h : Host) where
  unfoldable pub updated : TxType → Text → Uuid → Text → TxResponse
  updated tx_type entity id state_log = record {
    tx_type = tx_type;
    entity = entity;
    uuid = some id;
    state = state_log;
    message =
        text "Entity "
        ++ (entity ++ (text " with Uuid " ++ (h.uuid_to_string id ++ text " updated")));
  }

  -- What follows the new state: write the event, register it with the state to be stored, and move
  -- the counter from the offset that was read first.
  unfoldable pub commit_update : ℕ → Text → Uuid → Text → Entity → Act (Unit {0})
  commit_update offset entity id line stored = do
    date ← gets (λ w. w.now)
    written ← send (write_to_log h line)
    offset ← restart_if_empty written.1 offset
    m ←
        replace_entry h entity id
          (record { file_name = h.file_name date; offset = offset; bytes_length = written.0 })
          stored
    send (send_local_data h m)
    advance_counter h written.0

  unfoldable pub update_set_controller : Text → Entity → Uuid → Act TxResponse
  update_set_controller entity content id = do
    datetime ← tx_time content
    offset ← gets (λ w. w.bytes_counter)
    encrypted ← send (encrypt_content h entity content datetime)
    content_log ← or_fail serialization (h.entity_to_ron encrypted)
    require_uuid entity id
    send (check_for_unique_keys h entity encrypted)
    entry ← fetch_entry entity id
    previous_state ← unwrap (h.deserialize entry.1)
    let state = set_states previous_state encrypted
    state_log ← or_fail serialization (h.entity_to_ron state)
    previous_registry ← or_fail serialization (h.state_info_to_ron entry)
    commit_update offset entity id
        (update_set_entity_content h datetime id entity content_log state_log previous_registry)
        encrypted
    pure (updated TxType.update_set entity id state_log)

  unfoldable pub update_content_controller : Text → Entity → Uuid → Act TxResponse
  update_content_controller entity content id = do
    datetime ← tx_time content
    offset ← gets (λ w. w.bytes_counter)
    refuse_encrypted entity content
    let timed = insert (text "tx_time") (date_time datetime) content
    content_log ← or_fail serialization (h.entity_to_ron timed)
    require_uuid entity id
    send (check_for_unique_keys h entity timed)
    entry ← fetch_entry entity id
    previous_state ← unwrap (h.deserialize entry.1)
    fresh ← gets (λ w. w.fresh)
    let state = update_content_states h.float64 fresh datetime previous_state timed
    state_log ← or_fail serialization (h.entity_to_ron state)
    previous_registry ← or_fail serialization (h.state_info_to_ron entry)
    now ← gets (λ w. w.now)
    commit_update offset entity id
        (update_content_entity_content h now id entity content_log state_log previous_registry)
        state
    pure (updated TxType.update_content entity id state_log)
