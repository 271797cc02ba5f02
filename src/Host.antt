-- ===== src/Host.antt =====
-- What the server takes from other crates (ron, bincode, bcrypt, chrono, uuid) and from derived
-- formatting, as one record of functions. `none` is the crate's error.
use wooridb.Base.{ℕ, Bool, Text, Option}
use wooridb.Wql.Types.{Types, Uuid, DateTime, Entity, Float64}
use wooridb.Server.Files.{IoResult}
use wooridb.Model.{DataRegister, EntityHistoryInfo, StateInfo, LocalContext, UniquenessContext}

pub record Host : Type 0 where
  pub float64 : Float64
  -- ron::ser::to_string_pretty
  pub entity_to_ron : Entity → Option Text
  pub state_info_to_ron : StateInfo → Option Text
  pub register_to_ron : DataRegister → Option Text
  pub local_to_ron : LocalContext → Option Text
  pub uniqueness_to_ron : UniquenessContext → Option Text
  -- a date is always serialised, and the program unwraps the result
  pub date_to_ron : DateTime → Text
  -- ron::de::from_str
  pub entity_from_ron : Text → Option Entity
  pub state_info_from_ron : Text → Option StateInfo
  pub register_from_ron : Text → Option DataRegister
  pub date_from_ron : Text → Option DateTime
  pub history_info_from_ron : Text → Option EntityHistoryInfo
  -- str::parse::<DateTime<Utc>>
  pub parse_date : Text → Option DateTime
  -- bincode
  pub serialize : Entity → Option Text
  pub deserialize : Text → Option Entity
  -- bcrypt::hash at the configured cost
  pub bcrypt_hash : Text → Option Text
  -- bcrypt::verify of a text against a hash
  pub bcrypt_verify : Text → Text → Option Bool
  -- format!("{}", v), or "{:?}" where `Types::to_hash` uses that
  pub display : Types → Text
  -- format!("{:?}", v)
  pub debug : Types → Text
  pub uuid_to_string : Uuid → Text
  pub uuid_from_str : Text → Option Uuid
  -- format("data/%Y_%m_%d.log")
  pub file_name : DateTime → Text
  -- how the n-th call on a file ends
  pub io : ℕ → IoResult
  -- Read::read_to_string of these bytes, an error where they are not UTF-8 or the reading fails
  pub read_to_string : Text → Option Text
  -- usize::to_string
  pub usize_to_string : ℕ → Text
