-- ===== src/Server/Files.antt =====
-- The files under data/, and how a call on a file may end.
use wooridb.Base.{ℕ, Text, ◌++◌, drop, length}
use wooridb.Base.Map.{Map}

-- A call on a file works, fails at `open`, or fails after some bytes. `write`, which may take
-- only the first bytes of a text, may also succeed with these; `write_all` goes on after them.
pub data IoResult : Type 0 where
  done not_opened : IoResult
  not_written : ℕ → IoResult
  short : ℕ → IoResult

pub record Disk : Type 0 where
  -- data/<date>.log by name
  pub logs : Map Text Text
  pub uniques_log : Text
  pub unique_data_log : Text
  pub encrypt_log : Text
  pub local_data_log : Text
  pub offset_counter_log : Text
  -- the calls made so far
  pub io_count : ℕ

-- A file opened with no truncation and written from the start keeps its old tail.
unfoldable pub overwrite : Text → Text → Text
overwrite old new = new ++ drop (length new) old
