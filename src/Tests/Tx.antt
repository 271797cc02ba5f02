-- ===== src/Tests/Tx.antt =====
-- Transactions on the sample server.
use wooridb.Base.{
  ℕ, ◌≢◌, Option, none, some, List, [], ◌∷◌, Text, text, text_eq, any, all, ◌<◌, ◌≡◌, ◌++◌, refl,
  true, false, text_key, nat_key, length, if◌then◌else◌, arith,
}
use wooridb.Base.Map.{Map, get, insert, remove, contains_key, is_some}
use wooridb.Base.Int.{full_range}
use wooridb.Base.Sorted
use wooridb.Wql.Types.{Entity, string, default_values}
use wooridb.Wql.Ast.{Wql}
use wooridb.Model.{StateInfo, key_tx_time_not_allowed, failed_to_parse_state}
use wooridb.Server.{World, ok, err, ◌>>=◌, or_fail}
use wooridb.Server.Files.{overwrite}
use wooridb.Actors.Files.{
  read_slice, read_log, write_to_log, append_log, called, write_over, local_data, unique_data,
  offset_counter, send_local_data,
}
use wooridb.Actors.Lines.{
  display, line, insert_entity_content, update_content_entity_content, update_set_entity_content,
  create_entity_line, evict_entity_content,
}
use wooridb.Actors.State.{state}
use wooridb.Actors.State.RoundTrip.{HaveNoBar}
use wooridb.Actors.Uniques.{
  contains, lock_uniqueness, register, register_in, save_uniqueness, check_for_unique_keys,
}
use wooridb.Actors.Uniques.Registering.{recorded}
use wooridb.Actors.Content.{update_content_states, update_content_state, merge, merge_fields}
use wooridb.Actors.Encrypts.{
  lock_encryption, to_hash, encrypt_value, encrypt_all, encrypt, encrypt_content,
}
use wooridb.Tx.Steps.{
  TxResponse, TxType, tx_time, lock_local, require_entity, get_entry, require_uuid, fetch_entry,
  put_local, restart_if_empty, fetch_add, insert_entry, replace_entry, advance_counter,
}
use wooridb.Tx.Create.{create_tree, create_controller, remove_tree, evict_controller}
use wooridb.Tx.Insert.{id_or_fresh, commit_insert, insert_controller}
use wooridb.Tx.Update.{
  set_states, updated, commit_update, update_set_controller, update_content_controller,
  encrypted_keys, refuse_encrypted,
}
use wooridb.Tx.Handler.{tx_handler}
use wooridb.Tx.Durable.{
  tx_handler-logs, tx_handler-encryption, tx_handler-uniqueness, tx_handler-read_slice,
}
use wooridb.Tx.Refusals.{tx_handler-tx_time}
use wooridb.Tx.Stored.Reading.{InSync, day_log, Recorded}
use wooridb.Tx.Stored.Insert.{insert_controller-Recorded}
use wooridb.Tx.Stored.Update.{update_set_controller-Recorded}
use wooridb.Tx.Stored.Content.{ContentStored, update_content_controller-Recorded}
use wooridb.Tx.Stored.Later.{run, insert_controller-durable}
use wooridb.Tx.Stored.Trees.{
  create_controller-creates, evict_controller-evicts, get-set_states, or_else,
}
use wooridb.Host.{Host}
use wooridb.Wql.Types.{Uuid}
use wooridb.Query.Response.{Response}
use wooridb.Query.States.{filter_keys_and_hash}
use wooridb.Query.Select.{select_all_with_id, select_keys_with_id}
use wooridb.Query.Select.Shown.{insert_controller-select}
use wooridb.Server.Files.{short}
use wooridb.Tests.Sample.{
  sample_host, sample_world, sample_content, created, day, user_keys, hashed_content, encoded,
  no_bars,
}

no_log : Text → List Text → Option Text
no_log entity names = some []

abbrev inserted : World
inserted = (insert_controller sample_host (text "user") sample_content none sample_world).1

abbrev insert_response : TxResponse
insert_response = record {
  tx_type = TxType.insert;
  entity = text "user";
  uuid = some 7;
  state = [];
  message = text "Entity user inserted with Uuid id";
}

inserted-ok :
    insert_controller sample_host (text "user") sample_content none sample_world
    ≡ (ok insert_response, inserted)
unfolding insert_controller commit_insert require_entity insert_entry insert_entity_content
    Sorted.insert ◌>>=◌ tx_time contains_key is_some get insert text_eq any write_to_log append_log
    called restart_if_empty send_local_data local_data write_over overwrite offset_counter
    advance_counter fetch_add lock_local display line encrypt_content encrypt encrypt_all
    encrypt_value to_hash contains check_for_unique_keys lock_uniqueness register_in register
    save_uniqueness unique_data
inserted-ok = refl

inserted-log : length (day_log sample_host inserted) < full_range
unfolding insert_controller commit_insert require_entity insert_entry insert_entity_content
    Sorted.insert ◌>>=◌ tx_time contains_key is_some get insert text_eq any write_to_log append_log
    called restart_if_empty send_local_data local_data write_over overwrite offset_counter
    advance_counter fetch_add lock_local display line encrypt_content encrypt encrypt_all
    encrypt_value to_hash contains check_for_unique_keys lock_uniqueness register_in register
    save_uniqueness unique_data
inserted-log = omega arith

abbrev set_world : World
set_world = (update_set_controller sample_host (text "user") sample_content 3 sample_world).1

abbrev set_response : TxResponse
set_response = record {
  tx_type = TxType.update_set;
  entity = text "user";
  uuid = some 3;
  state = text "name:old,ssn:2,pin:?,tx_time:?,";
  message = text "Entity user with Uuid id updated";
}

set-ok :
    update_set_controller sample_host (text "user") sample_content 3 sample_world
    ≡ (ok set_response, set_world)
unfolding update_set_controller commit_update updated set_states require_uuid fetch_entry get_entry
    replace_entry update_set_entity_content insert_entry Sorted.insert ◌>>=◌ tx_time contains_key
    is_some get insert text_eq any write_to_log append_log called restart_if_empty send_local_data
    local_data write_over overwrite offset_counter advance_counter fetch_add lock_local display line
    encrypt_content encrypt encrypt_all encrypt_value to_hash contains check_for_unique_keys
    lock_uniqueness register_in register save_uniqueness unique_data
set-ok = refl

set-log : length (day_log sample_host set_world) < full_range
unfolding update_set_controller commit_update updated set_states require_uuid fetch_entry get_entry
    replace_entry update_set_entity_content insert_entry Sorted.insert ◌>>=◌ tx_time contains_key
    is_some get insert text_eq any write_to_log append_log called restart_if_empty send_local_data
    local_data write_over overwrite offset_counter advance_counter fetch_add lock_local display line
    encrypt_content encrypt encrypt_all encrypt_value to_hash contains check_for_unique_keys
    lock_uniqueness register_in register save_uniqueness unique_data
set-log = omega arith

tx_handler-logs_example :
    (s : Text) × (get day
        (tx_handler sample_host no_log no_log
          (Wql.insert (text "user") sample_content none)
          sample_world).1.disk.logs
      ≡ some (text "CREATE_ENTITY|user;" ++ s))
unfolding get text_eq
tx_handler-logs_example =
    tx_handler-logs sample_host no_log no_log (Wql.insert (text "user") sample_content none)
      sample_world day (text "CREATE_ENTITY|user;") refl

tx_handler-encryption_example :
    get
      (text "user")
      (tx_handler sample_host no_log no_log
        (Wql.insert (text "user") sample_content none)
        sample_world).1.encryption
    ≡ some user_keys
unfolding get text_eq
tx_handler-encryption_example =
    tx_handler-encryption sample_host no_log no_log (Wql.insert (text "user") sample_content none)
      sample_world (text "user") user_keys refl

tx_handler-uniqueness_example :
    (u : Map Text (List Text)) × (get
        (text "user")
        (tx_handler sample_host no_log no_log
          (Wql.insert (text "user") sample_content none)
          sample_world).1.uniqueness
      ≡ some u)
    × (recorded (text "ssn") (text "1") u ≡ true)
unfolding get text_eq recorded any
tx_handler-uniqueness_example =
    tx_handler-uniqueness sample_host no_log no_log (Wql.insert (text "user") sample_content none)
      sample_world (text "user") ((text "ssn", text "1" ∷ []) ∷ []) (text "ssn") (text "1") refl
      refl

tx_handler-read_slice_example :
    read_slice created
      (tx_handler sample_host no_log no_log
        (Wql.insert (text "user") sample_content none)
        sample_world).1.disk
    ≡ read_slice created sample_world.disk
unfolding get text_eq
tx_handler-read_slice_example =
    tx_handler-read_slice sample_host no_log no_log (Wql.insert (text "user") sample_content none)
      sample_world created (text "CREATE_ENTITY|user;") refl (omega arith)

insert_controller-Recorded_example :
    (encrypted : Entity) × (log : Text) × ((encrypt_content sample_host
        (text "user")
        sample_content
        sample_world.now
        sample_world).0
      ≡ ok encrypted)
    × (sample_host.entity_to_ron encrypted ≡ some log)
    × (insert_response.uuid ≡ some (id_or_fresh none sample_world))
    × Recorded sample_host
        (text "user")
        (id_or_fresh none sample_world)
        (insert_entity_content sample_host sample_world.now
          (id_or_fresh none sample_world)
          (text "user")
          log)
        encrypted
        inserted
    × InSync sample_host inserted
unfolding get text_eq
insert_controller-Recorded_example =
    insert_controller-Recorded sample_host (text "user") sample_content none sample_world inserted
      insert_response inserted-ok refl inserted-log

update_set_controller-Recorded_example :
    (encrypted previous : Entity) × (old : StateInfo) × (content_log state_log registry : Text)
    × ((encrypt_content sample_host (text "user") sample_content sample_world.now sample_world).0
        ≡ ok encrypted)
    × (get_entry (text "user") 3 sample_world.local ≡ some old)
    × (sample_host.deserialize old.1 ≡ some previous)
    × (sample_host.entity_to_ron encrypted ≡ some content_log)
    × (sample_host.entity_to_ron (set_states previous encrypted) ≡ some state_log)
    × (sample_host.state_info_to_ron old ≡ some registry)
    × (set_response.state ≡ state_log)
    × Recorded sample_host
        (text "user")
        3
        (update_set_entity_content sample_host sample_world.now 3
          (text "user")
          content_log
          state_log
          registry)
        encrypted
        set_world
    × InSync sample_host set_world
unfolding get text_eq
update_set_controller-Recorded_example =
    update_set_controller-Recorded sample_host (text "user") sample_content 3 sample_world set_world
      set_response set-ok refl set-log

hashed :
    (encrypt_content sample_host (text "user") sample_content 5 sample_world).0 ≡ ok hashed_content
unfolding encrypt_content encrypt encrypt_all encrypt_value to_hash contains get insert text_eq any
hashed = refl

bars : HaveNoBar (text "now" ∷ text "id" ∷ text "user" ∷ encoded hashed_content ∷ [])
unfolding all
bars = no_bars (text "now" ∷ text "id" ∷ text "user" ∷ encoded hashed_content ∷ []) refl

never_short : (k n : ℕ) → sample_host.io k ≢ short n
never_short k n e = absurd (ground arith)

insert_controller-durable_example :
    (info : StateInfo) × (get_entry (text "user") 7 inserted.local ≡ some info)
    × ((read_log sample_host info.0 >>= state sample_host)
          (run sample_host no_log no_log ((9, 11, Wql.evict (text "pet") none) ∷ []) inserted)
        ≡ or_fail failed_to_parse_state
            (sample_host.entity_from_ron (encoded hashed_content))
            (run sample_host no_log no_log ((9, 11, Wql.evict (text "pet") none) ∷ []) inserted))
unfolding get text_eq
insert_controller-durable_example =
    insert_controller-durable sample_host no_log no_log (text "user") sample_content hashed_content
      (encoded hashed_content) none sample_world inserted insert_response
      ((9, 11, Wql.evict (text "pet") none) ∷ []) inserted-ok never_short refl inserted-log hashed
      refl refl bars

tx_handler-tx_time_example :
    tx_handler sample_host no_log no_log
      (Wql.insert (text "user") ((text "tx_time", string []) ∷ []) none)
      sample_world
    ≡ (err key_tx_time_not_allowed, sample_world)
unfolding contains_key is_some get text_eq
tx_handler-tx_time_example =
    tx_handler-tx_time sample_host no_log no_log
      (Wql.insert (text "user") ((text "tx_time", string []) ∷ []) none) sample_world
      ((text "tx_time", string []) ∷ []) refl refl

abbrev toy_world : World
toy_world = (create_controller sample_host (text "toy") sample_world).1

abbrev toy_response : TxResponse
toy_response = record {
  tx_type = TxType.create;
  entity = text "toy";
  uuid = none;
  state = [];
  message = text "Entity `toy` created";
}

created-ok : create_controller sample_host (text "toy") sample_world ≡ (ok toy_response, toy_world)
unfolding create_controller create_tree create_entity_line put_local ◌>>=◌ tx_time contains_key
    is_some get insert text_eq any write_to_log append_log called restart_if_empty send_local_data
    local_data write_over overwrite offset_counter advance_counter fetch_add lock_local display line
created-ok = refl

create_controller-creates_example :
    (get (text "toy") sample_world.local ≡ none)
    × (get (text "user") toy_world.local ≡ (
        if text_eq (text "toy") (text "user")
        then some []
        else get (text "user") sample_world.local))
create_controller-creates_example =
    create_controller-creates sample_host (text "toy") (text "user") sample_world toy_world
      toy_response created-ok

abbrev evicted_world : World
evicted_world = (evict_controller sample_host (text "pet") none sample_world).1

abbrev evict_response : TxResponse
evict_response = record {
  tx_type = TxType.evict_entity_tree;
  entity = text "pet";
  uuid = none;
  state = [];
  message = text "Entity pet evicted";
}

evicted-ok :
    evict_controller sample_host (text "pet") none sample_world ≡ (ok evict_response, evicted_world)
unfolding evict_controller remove_tree remove evict_entity_content put_local ◌>>=◌ tx_time
    contains_key is_some get insert text_eq any write_to_log append_log called restart_if_empty
    send_local_data local_data write_over overwrite offset_counter advance_counter fetch_add
    lock_local display line
evicted-ok = refl

evict_controller-evicts_example :
    get (text "user") evicted_world.local
    ≡ (if text_eq (text "pet") (text "user") then none else get (text "user") sample_world.local)
evict_controller-evicts_example =
    evict_controller-evicts sample_host (text "pet") (text "user") sample_world evicted_world
      evict_response evicted-ok

get-set_states_example :
    get (text "pin") (set_states sample_content hashed_content)
    ≡ or_else (get (text "pin") hashed_content) (get (text "pin") sample_content)
unfolding get text_eq
get-set_states_example =
    get-set_states sample_content hashed_content (text "pin") (refl, (refl, (refl, tt)))

abbrev content_world : World
content_world =
    (update_content_controller sample_host (text "pet") ((text "age", string (text "9")) ∷ []) 4
      sample_world).1

abbrev content_response : TxResponse
content_response = record {
  tx_type = TxType.update_content;
  entity = text "pet";
  uuid = some 4;
  state = text "name:cat,age:9,tx_time:?,";
  message = text "Entity pet with Uuid id updated";
}

content-ok :
    update_content_controller sample_host
      (text "pet")
      ((text "age", string (text "9")) ∷ [])
      4
      sample_world
    ≡ (ok content_response, content_world)
unfolding update_content_controller commit_update updated refuse_encrypted lock_encryption
    encrypted_keys update_content_states update_content_state merge merge_fields default_values
    require_uuid fetch_entry get_entry replace_entry update_content_entity_content insert_entry
    Sorted.insert ◌>>=◌ tx_time contains_key is_some get insert text_eq any write_to_log append_log
    called restart_if_empty send_local_data local_data write_over overwrite offset_counter
    advance_counter fetch_add lock_local display line contains check_for_unique_keys lock_uniqueness
    register_in register save_uniqueness unique_data
content-ok = refl

content-log : length (day_log sample_host content_world) < full_range
unfolding update_content_controller commit_update updated refuse_encrypted lock_encryption
    encrypted_keys update_content_states update_content_state merge merge_fields default_values
    require_uuid fetch_entry get_entry replace_entry update_content_entity_content insert_entry
    Sorted.insert ◌>>=◌ tx_time contains_key is_some get insert text_eq any write_to_log append_log
    called restart_if_empty send_local_data local_data write_over overwrite offset_counter
    advance_counter fetch_add lock_local display line contains check_for_unique_keys lock_uniqueness
    register_in register save_uniqueness unique_data
content-log = omega arith

update_content_controller-Recorded_example :
    ContentStored sample_host
      (text "pet")
      ((text "age", string (text "9")) ∷ [])
      4
      sample_world
      content_world
      content_response
      5
      7
      5
unfolding get text_eq
update_content_controller-Recorded_example =
    update_content_controller-Recorded sample_host (text "pet")
      ((text "age", string (text "9")) ∷ []) 4 sample_world content_world content_response
      content-ok refl content-log

-- A host whose bincode gives back the content above
abbrev reading_host : Host
reading_host = record sample_host { deserialize = λ t. some hashed_content }

hashed_again :
    (encrypt_content reading_host (text "user") sample_content 5 sample_world).0 ≡ ok hashed_content
unfolding encrypt_content encrypt encrypt_all encrypt_value to_hash contains get insert text_eq any
hashed_again = refl

inserted_again :
    insert_controller reading_host (text "user") sample_content none sample_world
    ≡ (ok insert_response, inserted)
unfolding insert_controller commit_insert require_entity insert_entry insert_entity_content
    Sorted.insert ◌>>=◌ tx_time contains_key is_some get insert text_eq any write_to_log append_log
    called restart_if_empty send_local_data local_data write_over overwrite offset_counter
    advance_counter fetch_add lock_local display line encrypt_content encrypt encrypt_all
    encrypt_value to_hash contains check_for_unique_keys lock_uniqueness register_in register
    save_uniqueness unique_data
inserted_again = refl

unpoisoned : inserted.local_poisoned ≡ false
unfolding insert_controller commit_insert require_entity insert_entry insert_entity_content
    Sorted.insert ◌>>=◌ tx_time contains_key is_some get insert text_eq any write_to_log append_log
    called restart_if_empty send_local_data local_data write_over overwrite offset_counter
    advance_counter fetch_add lock_local display line encrypt_content encrypt encrypt_all
    encrypt_value to_hash contains check_for_unique_keys lock_uniqueness register_in register
    save_uniqueness unique_data
unpoisoned = refl

insert_controller-select_example :
    (encrypted : Entity) × (id : Uuid) × ((encrypt_content reading_host
        (text "user")
        sample_content
        sample_world.now
        sample_world).0
      ≡ ok encrypted)
    × (insert_response.uuid ≡ some id)
    × (select_all_with_id reading_host (text "user") id inserted
        ≡ (ok (Response.id (filter_keys_and_hash encrypted none)), inserted))
    × ((keys : List Text)
        → select_keys_with_id reading_host (text "user") id keys inserted
          ≡ (ok (Response.id (filter_keys_and_hash encrypted (some keys))), inserted))
unfolding get text_eq insert_controller
insert_controller-select_example =
    insert_controller-select reading_host (text "user") sample_content none sample_world inserted
      insert_response inserted_again refl inserted-log (λ e b p q. ground (arith, hashed_again, p))
      unpoisoned
