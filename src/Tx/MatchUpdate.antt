-- ===== src/Tx/MatchUpdate.antt =====
-- MATCH ... UPDATE: `match_update_set_controller`.
use wooridb.Base.{Text}
use wooridb.Wql.Types.{Entity, Uuid}
use wooridb.Wql.Condition.{MatchCondition}
use wooridb.Model.{serialization}
use wooridb.Host.{Host}
use wooridb.Server.{send, Outcome, Act, pure, gets, or_fail, unwrap, ◌>>=◌, ◌>>◌}
use wooridb.Actors.Lines.{update_set_entity_content}
use wooridb.Actors.Match.{match_update}
use wooridb.Actors.Uniques.{check_for_unique_keys}
use wooridb.Actors.Encrypts.{encrypt_content}
use wooridb.Tx.Steps.{TxType, TxResponse, tx_time, require_uuid, fetch_entry}
use wooridb.Tx.Update.{set_states, updated, commit_update}

-- An outcome that leaves the state alone.
unfoldable pub lift {ℓ} : {A : Type ℓ} → Outcome A → Act A
lift r w = (r, w)

module _ (h : Host) where
  -- The registry that the line ends with is the previous state, where UPDATE SET writes the
  -- previous register.
  unfoldable pub match_update_set_controller :
      Text → Entity → Uuid → MatchCondition → Act TxResponse
  match_update_set_controller entity content id conditions = do
    datetime ← tx_time content
    require_uuid entity id
    entry ← fetch_entry entity id
    previous_entry ← unwrap (h.deserialize entry.1)
    send (lift (match_update h.float64 previous_entry conditions))
    offset ← gets (λ w. w.bytes_counter)
    encrypted ← send (encrypt_content h entity content datetime)
    content_log ← or_fail serialization (h.entity_to_ron encrypted)
    send (check_for_unique_keys h entity content)
    let state = set_states previous_entry content
    state_log ← or_fail serialization (h.entity_to_ron state)
    previous_registry ← or_fail serialization (h.entity_to_ron previous_entry)
    commit_update h offset entity id
        (update_set_entity_content h datetime id entity content_log state_log previous_registry)
        encrypted
    pure (updated h TxType.update_set entity id state_log)
