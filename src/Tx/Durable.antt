-- ===== src/Tx/Durable.antt =====
-- The shared state before and after any transaction of woori-db/src/controllers/tx.rs.
use wooridb.Base.{
  ℕ, ◌+◌, true, ◌≤◌, ap, length, slice-append, take, drop, sym, ◌∙◌, ◌++◌, text_key, ◌≡◌, some,
  none, Option, List, [], ◌∷◌, Text,
}
use wooridb.Wql.Types.{Entity, Uuid}
use wooridb.Wql.Condition.{MatchCondition}
use wooridb.Wql.Ast.{Wql}
use wooridb.Base.Map.{Map, get}
use wooridb.Actors.Uniques.Registering.{recorded}
use wooridb.Actors.Files.{read_slice}
use wooridb.Model.{StateInfo, DataRegister}
use wooridb.Host.{Host}
use wooridb.Server.{World, Outcome, Act, ok, err, panic}
use wooridb.Server.Files.{Disk}
use wooridb.Tx.Create.{
  create_tree, create_controller, remove_tree, remove_id, evict_controller,
  create_unique_controller, create_encrypts_controller,
}
use wooridb.Tx.Insert.{commit_insert, insert_controller}
use wooridb.Tx.Update.{commit_update, update_set_controller, update_content_controller}
use wooridb.Tx.MatchUpdate.{match_update_set_controller}
use wooridb.Tx.Delete.{state_to_be, delete_controller}
use wooridb.Tx.Handler.{ignore_error, tolerant, tx_handler}
use wooridb.Tx.Rules.{extends, Extends, Keeps, keeps_rules}
use wooridb.Tx.Rules.Steps.{growing_rules}

module _ (h : Host) where
  create_tree-Keeps : (entity : Text) → Keeps extends (create_tree entity)
  unfolding create_tree
  create_tree-Keeps entity = search growing_rules depth 20

  create_controller-Keeps : (entity : Text) → Keeps extends (create_controller h entity)
  unfolding create_controller
  create_controller-Keeps entity = search (growing_rules, create_tree-Keeps) depth 20

  remove_tree-Keeps : (entity : Text) → Keeps extends (remove_tree entity)
  unfolding remove_tree
  remove_tree-Keeps entity = search growing_rules depth 20

  remove_id-Keeps : (entity : Text) (id : Uuid) → Keeps extends (remove_id entity id)
  unfolding remove_id
  remove_id-Keeps entity id = search growing_rules depth 20

  evict_controller-Keeps :
      (entity : Text) (id : Option Uuid) → Keeps extends (evict_controller h entity id)
  unfolding evict_controller
  evict_controller-Keeps entity none = search (growing_rules, remove_tree-Keeps) depth 20
  evict_controller-Keeps entity (some id) = search (growing_rules, remove_id-Keeps) depth 20

  create_unique_controller-Keeps :
      (log : Text → List Text → Option Text) (entity : Text) (names : List Text)
      → Keeps extends (create_unique_controller h log entity names)
  unfolding create_unique_controller
  create_unique_controller-Keeps log entity [] = search growing_rules depth 20
  create_unique_controller-Keeps log entity (k ∷ names) = search growing_rules depth 20

  create_encrypts_controller-Keeps :
      (log : Text → List Text → Option Text) (entity : Text) (names : List Text)
      → Keeps extends (create_encrypts_controller h log entity names)
  unfolding create_encrypts_controller
  create_encrypts_controller-Keeps log entity [] = search growing_rules depth 20
  create_encrypts_controller-Keeps log entity (k ∷ names) = search growing_rules depth 20

  commit_insert-Keeps :
      (n : ℕ) (entity : Text) (content : Entity) (log : Text) (id : Uuid)
      → Keeps extends (commit_insert h n entity content log id)
  unfolding commit_insert
  commit_insert-Keeps n entity content log id = search growing_rules depth 20

  insert_controller-Keeps :
      (entity : Text) (content : Entity) (id : Option Uuid)
      → Keeps extends (insert_controller h entity content id)
  unfolding insert_controller
  insert_controller-Keeps entity content id = search (growing_rules, commit_insert-Keeps) depth 20

  commit_update-Keeps :
      (n : ℕ) (entity : Text) (id : Uuid) (line : Text) (stored : Entity)
      → Keeps extends (commit_update h n entity id line stored)
  unfolding commit_update
  commit_update-Keeps n entity id line stored = search growing_rules depth 20

  update_set_controller-Keeps :
      (entity : Text) (content : Entity) (id : Uuid)
      → Keeps extends (update_set_controller h entity content id)
  unfolding update_set_controller
  update_set_controller-Keeps entity content id =
      search (growing_rules, commit_update-Keeps) depth 20

  update_content_controller-Keeps :
      (entity : Text) (content : Entity) (id : Uuid)
      → Keeps extends (update_content_controller h entity content id)
  unfolding update_content_controller
  update_content_controller-Keeps entity content id =
      search (growing_rules, commit_update-Keeps) depth 24

  match_update_set_controller-Keeps :
      (entity : Text) (content : Entity) (id : Uuid) (conditions : MatchCondition)
      → Keeps extends (match_update_set_controller h entity content id conditions)
  unfolding match_update_set_controller
  match_update_set_controller-Keeps entity content id conditions =
      search (growing_rules, commit_update-Keeps) depth 24

  state_to_be-Keeps :
      (entity : Text) (id : Uuid) (o : Option StateInfo) → Keeps extends (state_to_be h entity id o)
  unfolding state_to_be
  state_to_be-Keeps entity id none = search growing_rules depth 20
  state_to_be-Keeps entity id (some info) = search growing_rules depth 20

  delete_controller-Keeps : (entity id : Text) → Keeps extends (delete_controller h entity id)
  unfolding delete_controller
  delete_controller-Keeps entity id =
      search (growing_rules, state_to_be-Keeps, commit_update-Keeps) depth 24

ignore_error-Keeps : (m : Act (Unit {0})) → Keeps extends m → Keeps extends (ignore_error m)
unfolding ignore_error
ignore_error-Keeps m k = record { at = λ w. at w (m w) (k.at w) }
  where
    at : (w : World) (r : Outcome (Unit {0}) × World) → Extends w r.1 → Extends w (tolerant r).1
    at w (ok a, v) e = e
    at w (err x, v) e = e
    at w (panic, v) e = e

pub read_slice_from :
    (r : DataRegister) (d : Disk) (t : Text)
    → get r.file_name d.logs ≡ some t
    → read_slice r d ≡ some (take r.bytes_length (drop r.offset t))
unfolding read_slice
read_slice_from r d t g =
    ap (λ o. elim o [ none ↦ none | some x ↦ some (take r.bytes_length (drop r.offset x)) ]) g

module _ (h : Host) (uniques_log encrypts_log : Text → List Text → Option Text) where
  tx_handler-Keeps : (q : Wql) → Keeps extends (tx_handler h uniques_log encrypts_log q)
  unfolding tx_handler
  tx_handler-Keeps (Wql.create_entity entity uniques encrypts) =
      search
        (
          keeps_rules, ignore_error-Keeps, create_unique_controller-Keeps,
          create_encrypts_controller-Keeps, create_controller-Keeps,
        )
        depth 12
  tx_handler-Keeps (Wql.delete entity id) = delete_controller-Keeps h entity id
  tx_handler-Keeps (Wql.insert entity content id) = insert_controller-Keeps h entity content id
  tx_handler-Keeps (Wql.update_content entity content id) =
      update_content_controller-Keeps h entity content id
  tx_handler-Keeps (Wql.update_set entity content id) =
      update_set_controller-Keeps h entity content id
  tx_handler-Keeps (Wql.match_update entity content id conditions) =
      match_update_set_controller-Keeps h entity content id conditions
  tx_handler-Keeps (Wql.evict entity id) = evict_controller-Keeps h entity id
  tx_handler-Keeps _ = search keeps_rules

  pub tx_handler-Extends :
      (q : Wql) (w : World) → Extends w (tx_handler h uniques_log encrypts_log q w).1
  tx_handler-Extends q w = (tx_handler-Keeps q).at w

  -- Whatever the query and however it ends, errors and panics included, a log keeps what it
  -- holds and gets more only at its end.
  pub tx_handler-logs :
      (q : Wql) (w : World) (file t : Text)
      → get file w.disk.logs ≡ some t
      → (s : Text) × (get file (tx_handler h uniques_log encrypts_log q w).1.disk.logs
          ≡ some (t ++ s))
  tx_handler-logs q w = (tx_handler-Extends q w).logs

  -- Whatever the query and however it ends, an entity that has keys under encryption keeps
  -- exactly those keys.
  pub tx_handler-encryption :
      (q : Wql) (w : World) (entity : Text) (keys : List Text)
      → get entity w.encryption ≡ some keys
      → get entity (tx_handler h uniques_log encrypts_log q w).1.encryption ≡ some keys
  tx_handler-encryption q w = (tx_handler-Extends q w).encryption

  -- Whatever the query and however it ends, a value that is recorded under a unique key of an
  -- entity stays recorded.
  pub tx_handler-uniqueness :
      (q : Wql) (w : World) (entity : Text) (u : Map Text (List Text)) (k x : Text)
      → get entity w.uniqueness ≡ some u
      → recorded k x u ≡ true
      → (u' : Map Text (List Text)) × (get entity
            (tx_handler h uniques_log encrypts_log q w).1.uniqueness
          ≡ some u')
        × (recorded k x u' ≡ true)
  tx_handler-uniqueness q w = (tx_handler-Extends q w).uniqueness

  -- An event that a log holds stays readable: after any transaction, the same register gives the
  -- same bytes, where the register's slice is within the log.
  pub tx_handler-read_slice :
      (q : Wql) (w : World) (r : DataRegister) (t : Text)
      → get r.file_name w.disk.logs ≡ some t
      → r.offset + r.bytes_length ≤ length t
      → read_slice r (tx_handler h uniques_log encrypts_log q w).1.disk ≡ read_slice r w.disk
  tx_handler-read_slice q w r t g le =
      let (s, g') = (tx_handler-Extends q w).logs r.file_name t g in
      read_slice_from r _ (t ++ s) g'
      ∙ ap some (slice-append r.offset r.bytes_length t s le)
      ∙ sym (read_slice_from r w.disk t g)
