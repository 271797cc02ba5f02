-- ===== src/Tests/Sample.antt =====
-- A host whose functions are simple stand-ins, and a server with one entity.
use wooridb.Base.{
  ◌+◌, none, some, text_eq, List, [], ◌∷◌, ◌++◌, Text, text, ltb, leb, nat_eq, false, true, Bool,
  ◌&&◌, not, all, arith, ◌≡◌,
}
use wooridb.Wql.Types.{Types, string, hash, date_time, Entity, Float64}
use wooridb.Model.{DataRegister}
use wooridb.Host.{Host}
use wooridb.Server.{World}
use wooridb.Server.Files.{Disk, done}
use wooridb.Actors.State.RoundTrip.{HasNoBar, HaveNoBar}

abbrev pub floats : Float64
floats = record { eq = nat_eq; lt = ltb; le = leb; add = λ a b. a + b; of_int = λ i. 0 }

abbrev pub shown : Types → Text
shown (string s) = s
shown _ = text "?"

-- Each pair as `key:value,`.
abbrev pub encoded : Entity → Text
encoded [] = []
encoded ((k, v) ∷ m) = k ++ b':' ∷ shown v ++ b',' ∷ encoded m

abbrev pub day : Text
day = text "data/2021_03_01.log"

abbrev pub sample_host : Host
sample_host = record {
  float64 = floats;
  entity_to_ron = λ e. some (encoded e);
  state_info_to_ron = λ i. some i.1;
  register_to_ron = λ r. some r.file_name;
  local_to_ron = λ m. some (text "local");
  uniqueness_to_ron = λ m. some (text "unique");
  date_to_ron = λ d. text "now";
  entity_from_ron = λ t. some ((text "read", string t) ∷ []);
  state_info_from_ron = λ t. some (record { file_name = t; offset = 0; bytes_length = 0 }, []);
  register_from_ron = λ t. none;
  date_from_ron = λ t. some 5;
  history_info_from_ron = λ t. none;
  parse_date = λ t. some 5;
  serialize = λ e. some (encoded e);
  deserialize = λ t. some ((text "name", string t) ∷ []);
  bcrypt_hash = λ t. some (b'#' ∷ t);
  bcrypt_verify = λ t s. some (text_eq (b'#' ∷ t) s);
  display = shown;
  debug = shown;
  uuid_to_string = λ n. text "id";
  uuid_from_str = λ t. some 7;
  file_name = λ d. day;
  io = λ n. done;
  read_to_string = λ t. some t;
  usize_to_string = λ n. text "n";
}

abbrev pub sample_disk : Disk
sample_disk = record {
  logs = (day, text "CREATE_ENTITY|user;") ∷ [];
  uniques_log = [];
  unique_data_log = [];
  encrypt_log = [];
  local_data_log = [];
  offset_counter_log = [];
  io_count = 0;
}

abbrev pub created : DataRegister
created = record { file_name = day; offset = 0; bytes_length = 19 }

-- An entity with one id, the unique key `ssn` and the encrypted key `pin`, and one with neither.
abbrev pub sample_world : World
sample_world = record {
  local =
      (text "user", (3, (created, text "old")) ∷ [])
      ∷ (text "pet", (4, (created, text "cat")) ∷ [])
      ∷ [];
  local_poisoned = false;
  uniqueness = (text "user", (text "ssn", text "1" ∷ []) ∷ []) ∷ [];
  uniqueness_poisoned = false;
  encryption = (text "user", text "pin" ∷ []) ∷ [];
  encryption_poisoned = false;
  executor_stopped = false;
  bytes_counter = 19;
  disk = sample_disk;
  now = 5;
  fresh = 7;
}

abbrev pub sample_content : Entity
sample_content = (text "ssn", string (text "2")) ∷ (text "pin", string (text "0000")) ∷ []

abbrev pub user_keys : List Text
user_keys = text "pin" ∷ []

-- What goes on to the log and the store of the content above.
abbrev pub hashed_content : Entity
hashed_content =
    (text "ssn", string (text "2"))
    ∷ (text "pin", hash (text "#0000"))
    ∷ (text "tx_time", date_time 5)
    ∷ []

no_bar : (s : Text) → all (λ x. not (nat_eq x b'|')) s ≡ true → HasNoBar s
unfolding all
no_bar [] h = tt
no_bar (x ∷ s) h = (ground arith, no_bar s (ground arith))

abbrev pub bar_free : List Text → Bool
bar_free [] = true
bar_free (s ∷ r) = all (λ x. not (nat_eq x b'|')) s && bar_free r

pub no_bars : (fs : List Text) → bar_free fs ≡ true → HaveNoBar fs
no_bars [] h = tt
no_bars (s ∷ r) h = (no_bar s (ground arith), no_bars r (ground arith))
