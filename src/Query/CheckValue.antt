-- ===== src/Query/CheckValue.antt =====
-- CHECK: `check_value_controller` of woori-db/src/controllers/query.rs and the `VerifyEncryption`
-- message of woori-db/src/actors/encrypts.rs.
pub mod Answers
use wooridb.Base.{
  Bool, true, false, not, Option, none, some, List, [], ◌∷◌, Text, text_key, nat_key, if◌then◌else◌,
}
use wooridb.Base.Map.{Map, get, insert, contains_key}
use wooridb.Wql.Types.{Types, Entity, Uuid, hash, nil}
use wooridb.Model.{LocalContext, EncryptContext, check_non_encrypted_keys, entity_not_created}
use wooridb.Host.{Host}
use wooridb.Server.{World, ok, Act, pure, fail, unwrap, ◌>>=◌, ◌>>◌}
use wooridb.Actors.Files.{read_log}
use wooridb.Actors.State.{state}
use wooridb.Actors.Uniques.{contains}
use wooridb.Query.Response.{Response}
use wooridb.Query.Dedup.{value_or_nil}
use wooridb.Tx.Steps.{lock_local, get_entry}

unfoldable pub non_encrypt_keys : List Text → Map Text Text → List Text
unfolding contains
non_encrypt_keys encrypts [] = []
non_encrypt_keys encrypts ((k, v) ∷ content) =
    let rest = non_encrypt_keys encrypts content in if contains k encrypts then rest else k ∷ rest

abbrev pub refuse_any : List Text → Act (Unit {0})
refuse_any [] = pure tt
refuse_any (k ∷ r) = fail (check_non_encrypted_keys (k ∷ r))

-- `if let Ok(guard) = encryption.lock()`: a poisoned lock skips the test.
unfoldable pub check_encrypted : Text → Map Text Text → Act (Unit {0})
unfolding non_encrypt_keys
check_encrypted entity content w =
    if w.encryption_poisoned then (ok tt, w) else elim (get entity w.encryption) [
      | none ↦ (ok tt, w)
      | some encrypts ↦ refuse_any (non_encrypt_keys encrypts content) w
    ]

-- The block that clones the local data
unfoldable pub clone_local : Text → Act LocalContext
unfolding lock_local ◌>>=◌
clone_local entity = do
  local_data ← lock_local
  if contains_key entity local_data then pure local_data else fail (entity_not_created entity)

-- The filter of the state by the keys that are asked for.
unfoldable pub filter_state : Entity → Map Text Text → Entity
filter_state [] content = []
filter_state ((k, v) ∷ s) content =
    let rest = filter_state s content in if contains_key k content then (k, v) ∷ rest else rest

module _ (h : Host) where
  unfoldable pub verify : Types → Text → Option Bool
  verify (hash t) v = h.bcrypt_verify v t
  verify _ v = some false

  -- the `VerifyEncryption` message; `none` is the panic of `unwrap`
  unfoldable pub verify_encryption : Entity → Map Text Text → Option (Map Text Bool)
  unfolding verify value_or_nil
  verify_encryption filtered [] = some []
  verify_encryption filtered ((k, v) ∷ content) =
      let rest = verify_encryption filtered content in
      elim (verify (value_or_nil k filtered) v) [
        | none ↦ none
        | some result ↦ elim rest [ none ↦ none | some results ↦ some ((k, result) ∷ results) ]
      ]

  unfoldable pub check_value_controller : Text → Uuid → Map Text Text → Act Response
  unfolding get_entry filter_state verify_encryption
  check_value_controller entity id content = do
    check_encrypted entity content
    local_data ← clone_local entity
    previous_entry ← unwrap (get_entry entity id local_data)
    previous_state_str ← read_log h previous_entry.0
    s ← state h previous_state_str
    results ← unwrap (verify_encryption (filter_state s content) content)
    pure (Response.check_values results)
