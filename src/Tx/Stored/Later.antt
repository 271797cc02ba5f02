-- ===== src/Tx/Stored/Later.antt =====
-- What INSERT stored, after any transactions that follow.
use wooridb.Base.{
  ℕ, ◌<◌, ◌≡◌, ◌≢◌, sym, ap, ◌∙◌, some, Option, Option-cases, List, Text, text_key, length, arith,
  [], ◌∷◌, ◌++◌, inl, inr, slice-append_full,
}
use wooridb.Base.Int.{full_range}
use wooridb.Base.Map.{get}
use wooridb.Model.{StateInfo, DataRegister, io, failed_to_parse_state}
use wooridb.Host.{Host}
use wooridb.Server.Files.{short}
use wooridb.Tx.Stored.Commit.{Taken}
use wooridb.Wql.Types.{DateTime, Entity, Uuid}
use wooridb.Wql.Ast.{Wql}
use wooridb.Server.{World, Outcome, ok, or_fail, continue, ◌>>=◌}
use wooridb.Actors.Files.{in_text, or_empty, read_slice, read_log}
use wooridb.Actors.Lines.{insert_entity_content}
use wooridb.Actors.State.{state}
use wooridb.Actors.State.RoundTrip.{HaveNoBar, insert_entity_content-reads}
use wooridb.Actors.Encrypts.{encrypt_content}
use wooridb.Tx.Steps.{TxResponse, get_entry}
use wooridb.Tx.Insert.{id_or_fresh, insert_controller}
use wooridb.Tx.Handler.{tx_handler}
use wooridb.Tx.Rules.{extends, Extends, Holds-refl, Holds-trans}
use wooridb.Tx.Durable.{read_slice_from, tx_handler-Extends}
use wooridb.Tx.Stored.Reading.{InSync, day_log}
use wooridb.Tx.Stored.Insert.{insert_controller-Recorded}

-- A slice that is read whole is read again where the logs have only grown.
read_slice-Extends :
    (r : DataRegister) (w v : World) (line : Text)
    → read_slice r w.disk ≡ some line
    → r.bytes_length ≡ length line
    → Extends w v
    → read_slice r v.disk ≡ some line
unfolding read_slice
read_slice-Extends r w v line e n x = elim (Option-cases (get r.file_name w.disk.logs)) [
  | inl p ↦ ground arith
  | inr (t, g) ↦
      let (s, g') = x.logs r.file_name t g in
      let q = sym (read_slice_from r w.disk t g) ∙ e in
      read_slice_from r v.disk (t ++ s) g'
      ∙ ap some
          (slice-append_full r.offset r.bytes_length t s (ap (λ o. length (or_empty o)) q ∙ sym n))
      ∙ q
]

later-Extends :
    (now : DateTime) (fresh : Uuid) (w v : World)
    → Extends (record w { now = now; fresh = fresh }) v
    → Extends w v
later-Extends now fresh w v x = record {
  logs = x.logs;
  encryption = x.encryption;
  uniqueness = x.uniqueness;
}

Taken-whole :
    (h : Host) (line piece : Text)
    → ((k n : ℕ) → h.io k ≢ short n)
    → Taken h line piece
    → piece ≡ line
Taken-whole h line piece f (inl e) = e
Taken-whole h line piece f (inr (k, n, e, p)) = absurd (f k n e)

abbrev logged : (Entity → Option Text) → Outcome Entity → Text
logged f (ok c) = or_empty (f c)
logged f _ = []

module _ (h : Host) (uniques_log encrypts_log : Text → List Text → Option Text) where
  -- The state after some queries, one after the other, each with its time and its fresh id.
  unfoldable pub run : List (DateTime × Uuid × Wql) → World → World
  run [] w = w
  run ((now, fresh, q) ∷ qs) w =
      run qs (tx_handler h uniques_log encrypts_log q (record w { now = now; fresh = fresh })).1

  run-Extends : (qs : List (DateTime × Uuid × Wql)) (w : World) → Extends w (run qs w)
  unfolding run
  run-Extends [] w = Holds-refl extends w
  run-Extends ((now, fresh, q) ∷ qs) w =
      let u = record w { now = now; fresh = fresh } in
      let v = (tx_handler h uniques_log encrypts_log q u).1 in
      Holds-trans extends w v (run qs v)
        (later-Extends now fresh w v (tx_handler-Extends h uniques_log encrypts_log q u))
        (run-Extends qs v)

  -- After an INSERT that succeeded, and after any transactions that follow it one by one, each at
  -- its own time and whatever its outcome, the register that the INSERT left leads to the content
  -- that it logged: the bytes read, parsed as an event, are decoded from the RON of the encrypted
  -- content. No write is short, the counter is taken to be the length of the day's log, which
  -- stays below 2^64, the line to read as UTF-8, and no field of it to hold the separator.
  pub insert_controller-durable :
      (entity : Text) (content encrypted : Entity) (log : Text) (uuid : Option Uuid) (w v : World)
      (resp : TxResponse) (qs : List (DateTime × Uuid × Wql))
      → insert_controller h entity content uuid w ≡ (ok resp, v)
      → ((k n : ℕ) → h.io k ≢ short n)
      → InSync h w
      → length (day_log h v) < full_range
      → (encrypt_content h entity content w.now w).0 ≡ ok encrypted
      → h.entity_to_ron encrypted ≡ some log
      → in_text h (some (insert_entity_content h w.now (id_or_fresh uuid w) entity log))
        ≡ some (insert_entity_content h w.now (id_or_fresh uuid w) entity log)
      → HaveNoBar (h.date_to_ron w.now ∷ h.uuid_to_string (id_or_fresh uuid w) ∷ entity ∷ log ∷ [])
      → (info : StateInfo) × (get_entry entity (id_or_fresh uuid w) v.local ≡ some info)
        × ((read_log h info.0 >>= state h) (run qs v)
            ≡ or_fail failed_to_parse_state (h.entity_from_ron log) (run qs v))
  unfolding ◌>>=◌ read_log
  insert_controller-durable entity content encrypted log uuid w v resp qs e f s lt c p u n =
      let (c', log', pc, pl, pu, rec, sync) =
        insert_controller-Recorded h entity content uuid w v resp e s lt in
      let line = insert_entity_content h w.now (id_or_fresh uuid w) entity log in
      let same : log' ≡ log =
        sym (ap or_empty pl) ∙ ap (logged h.entity_to_ron) (sym pc ∙ c) ∙ ap or_empty p in
      let all : rec.piece ≡ line =
        Taken-whole h _ rec.piece f rec.taken
        ∙ ap (insert_entity_content h w.now (id_or_fresh uuid w) entity) same in
      let reads : read_slice rec.info.0 (run qs v).disk ≡ some line =
        read_slice-Extends rec.info.0 v (run qs v) line (rec.reads ∙ ap some all)
          (rec.whole ∙ ap length all) (run-Extends qs v) in
      (
        rec.info,
        rec.found,
        ap (λ o. continue (or_fail io o (run qs v)).0 (state h) (or_fail io o (run qs v)).1)
              (ap (in_text h) reads ∙ u)
            ∙ (insert_entity_content-reads h w.now (id_or_fresh uuid w) entity log (run qs v) n).0,
      )
