-- ===== src/Actors/Files.antt =====
-- Writing and reading the files: woori-db/src/io/write.rs, `read_log` of woori-db/src/io/read.rs,
-- and the actors of woori-db/src/actors/recovery.rs.
use wooridb.Base.{
  ℕ, suc, Bool, not, Option, none, some, [], ◌++◌, Text, text_key, length, take, drop,
}
use wooridb.Base.Map.{get, insert, contains_key}
use wooridb.Model.{DataRegister, LocalContext, io, ron}
use wooridb.Host.{Host}
use wooridb.Server.{ok, err, Act, or_fail, ◌>>=◌}
use wooridb.Server.Files.{Disk, done, not_opened, not_written, short, overwrite}

abbrev pub or_empty : Option Text → Text
or_empty none = []
or_empty (some t) = t

-- One more call on a file has been made.
unfoldable pub called : Disk → Disk
called d = record d { io_count = suc d.io_count }

-- Appends to a day's log, which `open` creates if it is not there.
unfoldable pub append_log : Text → Text → Disk → Disk
append_log file bytes d = record d {
  logs = insert file (or_empty (get file d.logs) ++ bytes) d.logs;
}

module _ (h : Host) where
  -- The length written, and whether the log of the day was not there before.
  unfoldable pub write_to_log : Text → Act (ℕ × Bool)
  unfolding called append_log
  write_to_log line w =
      let file = h.file_name w.now in
      let is_empty = not (contains_key file w.disk.logs) in
      elim (h.io w.disk.io_count) [
        | done ↦
            (ok (length line, is_empty), record w { disk = append_log file line (called w.disk) })
        | not_opened ↦ (err io, record w { disk = called w.disk })
        | not_written n ↦ (err io, record w { disk = append_log file [] (called w.disk) })
        | short n ↦ (
          ok (length (take n line), is_empty),
          record w { disk = append_log file (take n line) (called w.disk) },
        )
      ]

  -- `open` with `create`, then `seek` to the start and `write_all`: no truncation.
  unfoldable pub write_over : (Disk → Text) → (Text → Disk → Disk) → Text → Act (Unit {0})
  unfolding called overwrite
  write_over read store new w = elim (h.io w.disk.io_count) [
    | done ↦ (ok tt, record w { disk = store (overwrite (read w.disk) new) (called w.disk) })
    | short n ↦ (ok tt, record w { disk = store (overwrite (read w.disk) new) (called w.disk) })
    | not_opened ↦ (err io, record w { disk = called w.disk })
    | not_written n ↦
        (err io, record w { disk = store (overwrite (read w.disk) (take n new)) (called w.disk) })
  ]

  -- `open` to append, then `write`.
  unfoldable pub append_to : (Disk → Text) → (Text → Disk → Disk) → Text → Act (Unit {0})
  unfolding called
  append_to read store bytes w = elim (h.io w.disk.io_count) [
    | done ↦ (ok tt, record w { disk = store (read w.disk ++ bytes) (called w.disk) })
    | short n ↦ (ok tt, record w { disk = store (read w.disk ++ take n bytes) (called w.disk) })
    | _ ↦ (err io, record w { disk = called w.disk })
  ]

  unfoldable pub write_to_uniques : Text → Act (Unit {0})
  unfolding append_to
  write_to_uniques = append_to (λ d. d.uniques_log) (λ t d. record d { uniques_log = t })

  unfoldable pub write_to_encrypts : Text → Act (Unit {0})
  unfolding append_to
  write_to_encrypts = append_to (λ d. d.encrypt_log) (λ t d. record d { encrypt_log = t })

  unfoldable pub unique_data : Text → Act (Unit {0})
  unfolding write_over
  unique_data = write_over (λ d. d.unique_data_log) (λ t d. record d { unique_data_log = t })

  unfoldable pub local_data : Text → Act (Unit {0})
  unfolding write_over
  local_data = write_over (λ d. d.local_data_log) (λ t d. record d { local_data_log = t })

  unfoldable pub offset_counter : ℕ → Act (Unit {0})
  unfolding write_over
  offset_counter n =
      write_over (λ d. d.offset_counter_log) (λ t d. record d { offset_counter_log = t })
        (h.usize_to_string n)

  -- the `LocalData` message, with the context that the controller has cloned
  unfoldable pub send_local_data : LocalContext → Act (Unit {0})
  send_local_data data_ = do data_str ← or_fail ron (h.local_to_ron data_); local_data data_str

-- The bytes of an event, from the log of its day. Logs that the scheduler has compressed are not
-- modelled: they count as missing.
unfoldable pub read_slice : DataRegister → Disk → Option Text
read_slice r d = elim (get r.file_name d.logs) [
  | none ↦ none
  | some t ↦ some (take r.bytes_length (drop r.offset t))
]

abbrev pub in_text : Host → Option Text → Option Text
in_text h none = none
in_text h (some t) = h.read_to_string t

-- the `DataRegister` message
unfoldable pub read_log : Host → DataRegister → Act Text
unfolding read_slice
read_log h r w = or_fail io (in_text h (read_slice r w.disk)) w
