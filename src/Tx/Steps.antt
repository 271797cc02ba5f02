-- ===== src/Tx/Steps.antt =====
-- The steps that the controllers of woori-db/src/controllers/tx.rs repeat: the blocks that hold
-- the lock on the local data, and the bytes counter. `TxResponse` is of woori-db/src/schemas/tx.rs.
use wooridb.Base.{
  ℕ, ◌+◌, ◌%◌, Bool, true, Option, none, some, Text, text, text_key, nat_key, if◌then◌else◌,
}
use wooridb.Base.Map.{get, insert as put, contains_key}
use wooridb.Base.Sorted
use wooridb.Base.Int.{full_range}
use wooridb.Wql.Types.{Entity, Uuid, DateTime}
use wooridb.Model.{
  DataRegister, StateInfo, LocalContext, lock_data, entity_not_created, uuid_not_created_for_entity,
  key_tx_time_not_allowed,
}
use wooridb.Host.{Host}
use wooridb.Server.{send, ok, err, panic, Act, fail, pure, gets, ◌>>=◌, ◌>>◌}
use wooridb.Actors.Files.{offset_counter}

pub data TxType : Type 0 where
  create insert update_set update_content delete evict_entity evict_entity_tree : TxType

pub record TxResponse : Type 0 where
  pub tx_type : TxType
  pub entity : Text
  pub uuid : Option Uuid
  pub state : Text
  pub message : Text

-- `tx_time` of woori-db/src/core/mod.rs
unfoldable pub tx_time : Entity → Act DateTime
tx_time content w =
    if contains_key (text "tx_time") content
    then (err key_tx_time_not_allowed, w)
    else (ok w.now, w)

unfoldable pub lock_local : Act LocalContext
lock_local w = if w.local_poisoned then (err lock_data, w) else (ok w.local, w)

-- The entity tree has the key.
unfoldable pub require_entity : Text → Act (Unit {0})
unfolding lock_local ◌>>=◌
require_entity entity = do
  m ← lock_local
  if contains_key entity m then pure tt else fail (entity_not_created entity)

unfoldable pub get_entry : Text → Uuid → LocalContext → Option StateInfo
get_entry entity id m = elim (get entity m) [ none ↦ none | some ids ↦ get id ids ]

-- The entity tree has the key, and under it the id.
unfoldable pub require_uuid : Text → Uuid → Act (Unit {0})
unfolding lock_local ◌>>=◌
require_uuid entity id = do
  m ← lock_local
  elim (get entity m) [
    | none ↦ fail (entity_not_created entity)
    | some ids ↦
        if contains_key id ids then pure tt else fail (uuid_not_created_for_entity entity id)
  ]

-- `get(entity).unwrap().get(id).unwrap().clone()`: a panic poisons the lock.
unfoldable pub fetch_entry : Text → Uuid → Act StateInfo
unfolding get_entry
fetch_entry entity id w =
    if w.local_poisoned then (err lock_data, w) else elim (get_entry entity id w.local) [
      | none ↦ (panic, record w { local_poisoned = true })
      | some info ↦ (ok info, w)
    ]

unfoldable pub put_local : LocalContext → Act (Unit {0})
put_local m w = (ok tt, record w { local = m })

-- `if is_empty { bytes_counter.store(0); offset = 0; }`, with the offset that is in force then
unfoldable pub restart_if_empty : Bool → ℕ → Act ℕ
restart_if_empty is_empty offset w =
    if is_empty then (ok 0, record w { bytes_counter = 0 }) else (ok offset, w)

-- `bytes_counter.fetch_add`, which wraps around
unfoldable pub fetch_add : ℕ → Act (Unit {0})
fetch_add n w = (ok tt, record w { bytes_counter = (w.bytes_counter + n) % full_range })

module _ (h : Host) where
  -- `map.insert(uuid, (register, encoded))` in the entity's tree, if there is one
  unfoldable pub insert_entry : Text → Uuid → DataRegister → Entity → Act LocalContext
  insert_entry entity id reg state w =
      if w.local_poisoned then (err lock_data, w) else elim (get entity w.local) [
        | none ↦ (ok w.local, w)
        | some ids ↦ elim (h.serialize state) [
          | none ↦ (panic, record w { local_poisoned = true })
          | some encoded ↦
              let m = put entity (Sorted.insert id (reg, encoded) ids) w.local in
              (ok m, record w { local = m })
        ]
      ]

  -- `*reg = (register, encoded)`, if the entity and the id are there
  unfoldable pub replace_entry : Text → Uuid → DataRegister → Entity → Act LocalContext
  unfolding insert_entry get_entry
  replace_entry entity id reg state w =
      if w.local_poisoned then (err lock_data, w) else elim (get_entry entity id w.local) [
        | none ↦ (ok w.local, w)
        | some old ↦ insert_entry entity id reg state w
      ]

  -- `fetch_add`, and the counter's new value to data/offset_counter.log
  unfoldable pub advance_counter : ℕ → Act (Unit {0})
  advance_counter n = do fetch_add n; c ← gets (λ w. w.bytes_counter); send (offset_counter h c)
