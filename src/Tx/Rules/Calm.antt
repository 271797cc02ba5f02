-- ===== src/Tx/Rules/Calm.antt =====
-- The steps that touch neither the logs, the counter, nor the local data.
use wooridb.Base.{Text, text_key, nat_key, ℕ, arith}
use wooridb.Model.{DataRegister}
use wooridb.Host.{Host}
use wooridb.Wql.Types.{Entity, DateTime, Uuid}
use wooridb.Server.{Outcome, ◌>>=◌}
use wooridb.Actors.Files.{
  send_local_data, read_log, offset_counter, write_to_uniques, write_to_encrypts, local_data,
  unique_data,
}
use wooridb.Actors.State.{state, previous_registry}
use wooridb.Actors.Encrypts.{encrypt, encrypt_content, lock_encryption}
use wooridb.Actors.Uniques.{save_uniqueness, lock_uniqueness}
use wooridb.Tx.Steps.{tx_time, require_entity, require_uuid, fetch_entry, lock_local}
use wooridb.Tx.Update.{refuse_encrypted}
use wooridb.Tx.MatchUpdate.{lift}
use wooridb.Tx.Rules.{
  Rel, extends, same_store, Extends, SameStore, Keeps, Keeps-same, Keeps-bind, Keeps-if,
  keeps_rules,
}

module _ {r : Rel} where
  pub lock_uniqueness-Keeps : Keeps r lock_uniqueness
  unfolding lock_uniqueness
  lock_uniqueness-Keeps = Keeps-same _ (λ w. ground arith)

  pub lock_encryption-Keeps : Keeps r lock_encryption
  unfolding lock_encryption
  lock_encryption-Keeps = Keeps-same _ (λ w. ground arith)

  pub tx_time-Keeps : (content : Entity) → Keeps r (tx_time content)
  unfolding tx_time
  tx_time-Keeps content = Keeps-same _ (λ w. ground arith)

  pub lock_local-Keeps : Keeps r lock_local
  unfolding lock_local
  lock_local-Keeps = Keeps-same _ (λ w. ground arith)

  pub require_entity-Keeps : (entity : Text) → Keeps r (require_entity entity)
  unfolding require_entity
  require_entity-Keeps entity = Keeps-same _ (λ w. ground arith)

  pub require_uuid-Keeps : (entity : Text) (id : Uuid) → Keeps r (require_uuid entity id)
  unfolding require_uuid
  require_uuid-Keeps entity id = Keeps-same _ (λ w. ground arith)

  pub fetch_entry-Keeps : (entity : Text) (id : Uuid) → Keeps r (fetch_entry entity id)
  unfolding fetch_entry
  fetch_entry-Keeps entity id = Keeps-same _ (λ w. ground arith)

  pub refuse_encrypted-Keeps :
      (entity : Text) (content : Entity) → Keeps r (refuse_encrypted entity content)
  unfolding refuse_encrypted
  refuse_encrypted-Keeps entity content = Keeps-same _ (λ w. ground arith)

  pub lift-Keeps : (o : Outcome (Unit {0})) → Keeps r (lift o)
  unfolding lift
  lift-Keeps o = Keeps-same _ (λ w. ground arith)

  pub read_log-Keeps : (h : Host) (reg : DataRegister) → Keeps r (read_log h reg)
  unfolding read_log ◌>>=◌
  read_log-Keeps h reg = Keeps-same _ (λ w. ground arith)

  module _ (h : Host) where
    pub write_to_uniques-Keeps : (t : Text) → Keeps r (write_to_uniques h t)
    unfolding write_to_uniques
    write_to_uniques-Keeps t = Keeps-same _ (λ w. ground arith)

    pub write_to_encrypts-Keeps : (t : Text) → Keeps r (write_to_encrypts h t)
    unfolding write_to_encrypts
    write_to_encrypts-Keeps t = Keeps-same _ (λ w. ground arith)

    pub send_local_data-Keeps : (m : _) → Keeps r (send_local_data h m)
    unfolding send_local_data local_data ◌>>=◌
    send_local_data-Keeps m = Keeps-same _ (λ w. ground arith)

    pub offset_counter-Keeps : (n : ℕ) → Keeps r (offset_counter h n)
    unfolding offset_counter
    offset_counter-Keeps n = Keeps-same _ (λ w. ground arith)

    pub state-Keeps : (t : Text) → Keeps r (state h t)
    unfolding state
    state-Keeps t = Keeps-same _ (λ w. ground arith)

    pub previous_registry-Keeps : (t : Text) → Keeps r (previous_registry h t)
    unfolding previous_registry
    previous_registry-Keeps t = Keeps-same _ (λ w. ground arith)

    pub encrypt_content-Keeps :
        (entity : Text) (content : Entity) (date : DateTime)
        → Keeps r (encrypt_content h entity content date)
    unfolding encrypt_content encrypt
    encrypt_content-Keeps entity content date = Keeps-same _ (λ w. ground arith)

    pub save_uniqueness-Keeps : Keeps r (save_uniqueness h)
    unfolding save_uniqueness unique_data ◌>>=◌
    save_uniqueness-Keeps = Keeps-same _ (λ w. ground arith)

pub ruleset calm_rules = (
  keeps_rules, lock_uniqueness-Keeps, lock_encryption-Keeps, tx_time-Keeps, lock_local-Keeps,
  require_entity-Keeps, require_uuid-Keeps, fetch_entry-Keeps, refuse_encrypted-Keeps, lift-Keeps,
  read_log-Keeps, write_to_uniques-Keeps, write_to_encrypts-Keeps, send_local_data-Keeps,
  offset_counter-Keeps, state-Keeps, previous_registry-Keeps, encrypt_content-Keeps,
  save_uniqueness-Keeps,
)
