-- ===== src/Actors/Lines.antt =====
-- The lines of the log: `Action` of woori-db/src/model/wql.rs, the formats of
-- woori-db/src/core/wql.rs, and the messages of woori-db/src/actors/wql.rs that write them.
use wooridb.Base.{List, [], ◌∷◌, ◌++◌, Text, text, text_eq, if◌then◌else◌, ◌≡◌, refl}
use wooridb.Wql.Types.{Uuid, DateTime}
use wooridb.Host.{Host}

pub data Action : Type 0 where
  create_entity insert read update_set update_content delete evict_entity evict_entity_id : Action
  error : Action

unfoldable pub display : Action → Text
display read = text "READ"
display create_entity = text "CREATE_ENTITY"
display insert = text "INSERT"
display update_set = text "UPDATE_SET"
display update_content = text "UPDATE_CONTENT"
display delete = text "DELETE"
display evict_entity = text "EVICT_ENTITY"
display evict_entity_id = text "EVICT_ENTITY_ID"
display error = text "Error"

-- From<String> for Action
unfoldable pub from : Text → Action
unfolding text_eq
from s =
    if text_eq s (text "READ")
    then read
    else if text_eq s (text "CREATE_ENTITY")
    then create_entity
    else if text_eq s (text "INSERT")
    then insert
    else if text_eq s (text "DELETE")
    then delete
    else if text_eq s (text "UPDATE_SET")
    then update_set
    else if text_eq s (text "UPDATE_CONTENT")
    then update_content
    else if text_eq s (text "EVICT_ENTITY")
    then evict_entity
    else if text_eq s (text "EVICT_ENTITY_ID")
    then evict_entity_id
    else error

-- The tag that an action is written with is read as that action.
pub from-display : (a : Action) → from (display a) ≡ a
unfolding from display
from-display create_entity = refl
from-display insert = refl
from-display read = refl
from-display update_set = refl
from-display update_content = refl
from-display delete = refl
from-display evict_entity = refl
from-display evict_entity_id = refl
from-display error = refl

-- Fields with `|` between them and `;` at the end.
unfoldable pub line : List Text → Text
line [] = text ";"
line (s ∷ []) = s ++ text ";"
line (s ∷ t ∷ r) = s ++ b'|' ∷ line (t ∷ r)

module _ (h : Host) where
  unfoldable pub create_entity_line : Text → Text
  unfolding line display
  create_entity_line entity = line (display create_entity ∷ entity ∷ [])

  unfoldable pub evict_entity_content : DateTime → Text → Text
  unfolding line display
  evict_entity_content now entity = line (display evict_entity ∷ h.date_to_ron now ∷ entity ∷ [])

  unfoldable pub evict_entity_id_content : DateTime → Text → Uuid → Text
  unfolding line display
  evict_entity_id_content now name id =
      line (display evict_entity_id ∷ h.date_to_ron now ∷ h.uuid_to_string id ∷ name ∷ [])

  unfoldable pub insert_entity_content : DateTime → Uuid → Text → Text → Text
  unfolding line display
  insert_entity_content date id name content =
      line (display insert ∷ h.date_to_ron date ∷ h.uuid_to_string id ∷ name ∷ content ∷ [])

  unfoldable pub update_set_entity_content : DateTime → Uuid → Text → Text → Text → Text → Text
  unfolding line display
  update_set_entity_content date id name content_log current_state previous_registry = line (
      display update_set
      ∷ h.date_to_ron date
      ∷ h.uuid_to_string id
      ∷ name
      ∷ content_log
      ∷ current_state
      ∷ previous_registry
      ∷ [])

  unfoldable pub update_content_entity_content : DateTime → Uuid → Text → Text → Text → Text → Text
  unfolding line display
  update_content_entity_content date id name content_log current_state previous_registry = line (
      display update_content
      ∷ h.date_to_ron date
      ∷ h.uuid_to_string id
      ∷ name
      ∷ content_log
      ∷ current_state
      ∷ previous_registry
      ∷ [])

  unfoldable pub delete_entity_content : DateTime → Uuid → Text → Text → Text → Text
  unfolding line display
  delete_entity_content date id name content_log previous_registry = line (
      display delete
      ∷ h.date_to_ron date
      ∷ h.uuid_to_string id
      ∷ name
      ∷ content_log
      ∷ previous_registry
      ∷ [])
