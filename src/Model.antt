-- ===== src/Model.antt =====
-- Registers, the shared contexts and the errors: woori-db/src/model and
-- woori-db/src/repository/local.rs. What an error carries from a third-party
-- crate is left out, and so are the errors of authentication.
use wooridb.Base.{ℕ, List, Option, Text}
use wooridb.Base.Map.{Map}
use wooridb.Wql.Types.{Types, Uuid, DateTime}

-- Where an event stands in the log of its day.
pub record DataRegister : Type 0 where
  pub file_name : Text
  pub offset : ℕ
  pub bytes_length : ℕ

-- The register of the last event, and the encoded state.
abbrev pub StateInfo : Type 0
StateInfo = DataRegister × Text

abbrev pub LocalContext : Type 0
LocalContext = Map Text (Map Uuid StateInfo)

-- A HashSet<String> is a list without repetitions.
abbrev pub UniquenessContext : Type 0
UniquenessContext = Map Text (Map Text (List Text))

abbrev pub EncryptContext : Type 0
EncryptContext = Map Text (List Text)

pub data Error : Type 0 where
  io invalid_query serialization failed_to_parse_state failed_to_parse_registry : Error
  unknown_condition failed_match_condition select_bad_request non_select_query : Error
  failed_to_parse_date date_time_parse lock_data actix_mailbox key_tx_time_not_allowed ron
        invalid_uuid :
      Error
  query_format entity_already_created entity_not_created : Text → Error
  entity_not_created_with_uniqueness : Text → Error
  uuid_not_created_for_entity : Text → Uuid → Error
  duplicated_unique : Text → Text → Types → Error
  update_content_encrypt_keys check_non_encrypted_keys : List Text → Error

-- woori-db/src/schemas/history.rs
pub record EntityHistoryInfo : Type 0 where
  pub entity_key : Text
  pub entity_id : Uuid
  pub start_datetime : Option DateTime
  pub end_datetime : Option DateTime
