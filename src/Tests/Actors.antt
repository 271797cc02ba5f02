-- ===== src/Tests/Actors.antt =====
-- Handlers of the actors on the sample server.
use wooridb.Base.{
  some, [], ◌∷◌, Text, text, text_eq, any, all, ◌≡◌, ◌↔◌, inl, refl, text_key, if◌then◌else◌,
}
use wooridb.Base.Map.{get, insert, contains_key, is_some}
use wooridb.Base.Int.{pos}
use wooridb.Wql.Types.{Entity, string, integer, date_time}
use wooridb.Wql.Condition.{all as all_of, any as any_of, g_eq, eq, end, condition, Conditions}
use wooridb.Model.{failed_match_condition, failed_to_parse_state, failed_to_parse_registry}
use wooridb.Server.{World, ok, err, ◌>>=◌, pure, or_fail}
use wooridb.Server.Files.{overwrite}
use wooridb.Actors.Files.{unique_data, write_over, called}
use wooridb.Actors.Lines.{update_set_entity_content}
use wooridb.Actors.State.{state, previous_registry}
use wooridb.Actors.State.RoundTrip.{HaveNoBar, update_set_entity_content-reads}
use wooridb.Actors.Uniques.{
  contains, lock_uniqueness, register, register_in, save_uniqueness, check_for_unique_keys,
}
use wooridb.Actors.Uniques.Registering.{Duplicated}
use wooridb.Actors.Uniques.Freshness.{check_for_unique_keys-refuses}
use wooridb.Actors.Encrypts.{to_hash, encrypt_value, encrypt_all, encrypt, encrypt_content}
use wooridb.Actors.Encrypts.Secrecy.{ShownAs, encrypt_content-secret}
use wooridb.Actors.Match.{match_update}
use wooridb.Actors.Match.Meaning.{AllSatisfied, SomeSatisfied, match_update-all, match_update-any}
use wooridb.Actors.Content.{update_content_states}
use wooridb.Actors.Content.Merging.{sum, update_content_states-adds}
use wooridb.Tests.Sample.{
  sample_host, sample_world, sample_content, floats, user_keys, hashed_content, no_bars,
}

abbrev conditions : Conditions
conditions =
    condition (eq (text "ssn") (string (text "2")))
      (condition (g_eq (text "age") (integer (pos 1))) end)

match_update-all_example :
    ((match_update floats sample_content (all_of conditions) ≡ ok tt)
      ↔ AllSatisfied floats sample_content conditions)
    × ((match_update floats sample_content (all_of conditions) ≡ err failed_match_condition)
        ↔ (¬ AllSatisfied floats sample_content conditions))
match_update-all_example = match_update-all floats sample_content conditions

match_update-any_example :
    ((match_update floats sample_content (any_of conditions) ≡ ok tt)
      ↔ SomeSatisfied floats sample_content conditions)
    × ((match_update floats sample_content (any_of conditions) ≡ err failed_match_condition)
        ↔ (¬ SomeSatisfied floats sample_content conditions))
match_update-any_example = match_update-any floats sample_content conditions

abbrev user : Text
user = text "user"

hashed_ok :
    encrypt_content sample_host user sample_content 5 sample_world
    ≡ (ok hashed_content, sample_world)
unfolding encrypt_content encrypt encrypt_all encrypt_value to_hash contains get insert text_eq any
hashed_ok = refl

encrypt_content-secret_example :
    ShownAs
      (contains (text "pin") user_keys)
      (if text_eq (text "tx_time") (text "pin")
        then some (date_time 5)
        else get (text "pin") sample_content)
      (get (text "pin") hashed_content)
unfolding get text_eq
encrypt_content-secret_example =
    encrypt_content-secret sample_host sample_world user user_keys refl sample_content
      hashed_content 5 sample_world (text "pin") hashed_ok

abbrev checked : World
checked = (check_for_unique_keys sample_host user sample_content sample_world).1

checked-ok : check_for_unique_keys sample_host user sample_content sample_world ≡ (ok tt, checked)
unfolding check_for_unique_keys lock_uniqueness register_in register save_uniqueness unique_data
    write_over overwrite ◌>>=◌ get insert contains text_eq any called
checked-ok = refl

check_for_unique_keys-refuses_example :
    Duplicated user (check_for_unique_keys sample_host user sample_content checked).0
unfolding get text_eq contains_key is_some
check_for_unique_keys-refuses_example =
    check_for_unique_keys-refuses sample_host user sample_content sample_content sample_world
      checked ((text "ssn", text "1" ∷ []) ∷ []) (text "ssn") (string (text "2")) refl refl
      (inl (refl, refl)) (inl (refl, refl)) checked-ok

abbrev counts : Entity
counts = (text "age", integer (pos 3)) ∷ []

four : HaveNoBar (text "now" ∷ text "id" ∷ user ∷ text "old" ∷ [])
unfolding all
four = no_bars (text "now" ∷ text "id" ∷ user ∷ text "old" ∷ []) refl

six : HaveNoBar (text "now" ∷ text "id" ∷ user ∷ text "old" ∷ text "new" ∷ text "reg" ∷ [])
unfolding all
six = no_bars (text "now" ∷ text "id" ∷ user ∷ text "old" ∷ text "new" ∷ text "reg" ∷ []) refl

update_set_entity_content-reads_example :
    (state sample_host
        (update_set_entity_content sample_host 5 7 user (text "old") (text "new") (text "reg"))
        sample_world
      ≡ or_fail failed_to_parse_state (sample_host.entity_from_ron (text "new")) sample_world)
    × (previous_registry sample_host
          (update_set_entity_content sample_host 5 7 user (text "old") (text "new") (text "reg"))
          sample_world
        ≡ (or_fail failed_to_parse_registry (sample_host.state_info_from_ron (text "reg")) >>= λ i.
              pure (some i))
            sample_world)
update_set_entity_content-reads_example =
    update_set_entity_content-reads sample_host 5 7 user (text "old") (text "new") (text "reg")
      sample_world six

update_content_states-adds_example :
    get (text "age") (update_content_states floats 7 5 counts counts)
    ≡ sum (get (text "age") counts) (get (text "age") counts)
unfolding get text_eq
update_content_states-adds_example =
    update_content_states-adds floats 7 5 counts counts (text "age") (refl, tt) refl
