-- ===== src/Query/Select/Shown.antt =====
-- What SELECT shows of an entity with an id, after an INSERT.
use wooridb.Base.{
  ◌<◌, false, Option, none, some, List, Text, text_key, nat_key, length, arith, ◌≡◌, Option-cases,
  inl, inr,
}
use wooridb.Base.Int.{full_range}
use wooridb.Base.Map.{Map, get}
use wooridb.Wql.Types.{Entity, Uuid}
use wooridb.Model.{StateInfo}
use wooridb.Host.{Host}
use wooridb.Server.{World, ok, unwrap, or_fail, pure, ◌>>=◌}
use wooridb.Actors.Encrypts.{encrypt_content}
use wooridb.Tx.Steps.{TxResponse, get_entry, lock_local}
use wooridb.Tx.Insert.{id_or_fresh, insert_controller}
use wooridb.Tx.Stored.Reading.{InSync, day_log}
use wooridb.Tx.Stored.Insert.{insert_controller-Recorded}
use wooridb.Query.Response.{Response}
use wooridb.Query.States.{filter_keys_and_hash}
use wooridb.Query.Select.{
  get_registries, get_registry, select_id, select_all_with_id, select_keys_with_id,
}

-- The id's entry in the tree of the entity
entry-tree :
    (entity : Text) (id : Uuid) (m : Map Text (Map Uuid StateInfo)) (info : StateInfo)
    → get_entry entity id m ≡ some info
    → (ids : Map Uuid StateInfo) × (get entity m ≡ some ids) × (get id ids ≡ some info)
unfolding get_entry
entry-tree entity id m info e = elim (Option-cases (get entity m)) [
  | inl n ↦ absurd (ground (arith, e, n))
  | inr (ids, p) ↦ (ids, p, ground (arith, e, p))
]

module _ (h : Host) where
  -- SELECT of an id shows the stored state, less hashes and the keys that are not asked for.
  pub select_id-stored :
      (entity : Text) (id : Uuid) (keys : Option (List Text)) (w : World) (info : StateInfo)
      (state : Entity)
      → w.local_poisoned ≡ false
      → get_entry entity id w.local ≡ some info
      → h.deserialize info.1 ≡ some state
      → select_id h entity id keys w ≡ (ok (Response.id (filter_keys_and_hash state keys)), w)
  unfolding select_id get_registry get_registries lock_local ◌>>=◌ or_fail unwrap pure
  select_id-stored entity id keys w info state np e d =
      let (ids, p, q) = entry-tree entity id w.local info e in ground (arith, np, p, q, d)

  -- After an INSERT that succeeds, where the counter is the length of the day's log, bincode reads
  -- back the content and no lock is poisoned, SELECT of the id that it answers shows the content
  -- as it was encrypted, less hashes; SELECT with keys shows those of the keys.
  pub insert_controller-select :
      (entity : Text) (content : Entity) (uuid : Option Uuid) (w v : World) (resp : TxResponse)
      → insert_controller h entity content uuid w ≡ (ok resp, v)
      → InSync h w
      → length (day_log h v) < full_range
      → ((e : Entity) (b : Text)
          → (encrypt_content h entity content w.now w).0 ≡ ok e
          → h.serialize e ≡ some b
          → h.deserialize b ≡ some e)
      → v.local_poisoned ≡ false
      → (encrypted : Entity) × (id : Uuid) × ((encrypt_content h entity content w.now w).0
          ≡ ok encrypted)
        × (resp.uuid ≡ some id)
        × (select_all_with_id h entity id v
            ≡ (ok (Response.id (filter_keys_and_hash encrypted none)), v))
        × ((keys : List Text)
            → select_keys_with_id h entity id keys v
              ≡ (ok (Response.id (filter_keys_and_hash encrypted (some keys))), v))
  unfolding select_all_with_id select_keys_with_id
  insert_controller-select entity content uuid w v resp e s lt dec np =
      let (encrypted, log, p, q, u, rec, sync) =
        insert_controller-Recorded h entity content uuid w v resp e s lt in
      let id = id_or_fresh uuid w in
      let state = dec encrypted rec.info.1 p rec.encoded in
      (
        encrypted,
        id,
        p,
        u,
        select_id-stored entity id none v rec.info encrypted np rec.found state,
        λ keys. select_id-stored entity id (some keys) v rec.info encrypted np rec.found state,
      )
