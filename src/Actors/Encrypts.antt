-- ===== src/Actors/Encrypts.antt =====
-- Encrypted keys: woori-db/src/actors/encrypts.rs, and `to_hash` of wql/src/lib.rs.
pub mod Secrecy
use wooridb.Base.{true, Option, none, some, List, [], ◌∷◌, Text, text, text_key, if◌then◌else◌}
use wooridb.Base.Map.{get, insert, contains_key}
use wooridb.Wql.Types.{Types, hash, nil, date_time, DateTime, Entity}
use wooridb.Model.{EncryptContext, lock_data}
use wooridb.Host.{Host}
use wooridb.Server.{ok, err, panic, Act, pure, ◌>>=◌}
use wooridb.Actors.Uniques.{contains}

unfoldable pub lock_encryption : Act EncryptContext
lock_encryption w = if w.encryption_poisoned then (err lock_data, w) else (ok w.encryption, w)

unfoldable pub put_encryption : EncryptContext → Act (Unit {0})
put_encryption m w = (ok tt, record w { encryption = m })

-- `into_par_iter().collect::<HashSet<_>>()`
unfoldable pub to_set : List Text → List Text
unfolding contains
to_set [] = []
to_set (s ∷ r) = let rest = to_set r in if contains s rest then rest else s ∷ rest

unfoldable pub create_with_encryption : Text → List Text → Act (Unit {0})
create_with_encryption entity encrypts = do
  m ← lock_encryption
  if contains_key entity m then pure tt else put_encryption (insert entity (to_set encrypts) m)

module _ (h : Host) where
  -- `none` is an error of any kind: the caller unwraps.
  unfoldable pub to_hash : Types → Option Types
  to_hash (hash s) = none
  to_hash nil = none
  to_hash v = elim (h.bcrypt_hash (h.display v)) [ none ↦ none | some s ↦ some (hash s) ]

  unfoldable pub encrypt_value : List Text → Text → Types → Option Types
  unfolding to_hash contains
  encrypt_value keys k v = if contains k keys then to_hash v else some v

  -- The pairs of a HashMap have different keys, so that inserting each is a map over the pairs.
  unfoldable pub encrypt_all : List Text → Entity → Option Entity
  unfolding encrypt_value
  encrypt_all keys [] = some []
  encrypt_all keys ((k, v) ∷ content) =
      let rest = encrypt_all keys content in
      elim (encrypt_value keys k v) [
        | none ↦ none
        | some x ↦ elim rest [ none ↦ none | some r ↦ some ((k, x) ∷ r) ]
      ]

  -- The handler: an unwrap of an error panics while the lock is held, which `send` answers.
  unfoldable pub encrypt : Text → Entity → Act Entity
  unfolding encrypt_all
  encrypt entity content w =
      if w.encryption_poisoned then (err lock_data, w) else elim (get entity w.encryption) [
        | none ↦ (ok content, w)
        | some keys ↦ elim (encrypt_all keys content) [
          | none ↦ (panic, record w { encryption_poisoned = true })
          | some r ↦ (ok r, w)
        ]
      ]

  -- `EncryptContent::new` adds the transaction time before the message is sent.
  unfoldable pub encrypt_content : Text → Entity → DateTime → Act Entity
  unfolding encrypt
  encrypt_content entity content datetime =
      encrypt entity (insert (text "tx_time") (date_time datetime) content)
