-- ===== src/Query/When.antt =====
-- SELECT WHEN: `read_date_log` of woori-db/src/io/read.rs, woori-db/src/actors/when.rs, and the
-- `when` controllers of woori-db/src/controllers/query.rs.
pub mod Latest
use wooridb.Base.{
  ℕ, zero, suc, Bool, true, false, ◌&&◌, ◌||◌, Option, none, some, List, [], ◌∷◌, Text, text,
  text_eq, text_key, nat_key, ltb, if◌then◌else◌,
}
use wooridb.Base.Map.{Map, get, insert}
use wooridb.Base.Sorted as Sorted
use wooridb.Wql.Types.{Entity, Uuid, DateTime}
use wooridb.Model.{io, failed_to_parse_state, failed_to_parse_date, date_time_parse}
use wooridb.Host.{Host}
use wooridb.Server.{Outcome, ok, err, panic, Act, pure, or_fail, gets, ◌>>=◌}
use wooridb.Actors.State.{split, first, last, before_last}
use wooridb.Query.Response.{Response}
use wooridb.Query.States.{filter_keys_and_hash}

-- Logs that the scheduler has compressed are not modelled: they count as missing.
unfoldable pub read_date_log : Text → Act Text
read_date_log date_log w = or_fail io (get date_log w.disk.logs) w

-- fractions[n], which panics out of range
unfoldable pub fraction : ℕ → List Text → Option Text
fraction n [] = none
fraction zero (s ∷ r) = some s
fraction (suc n) (s ∷ r) = fraction n r

-- fractions[3].eq(entity) && fractions[2].eq(id); no id stands for every id.
unfoldable pub is_about : Text → Option Text → List Text → Option Bool
unfolding fraction text_eq
is_about entity id fractions = elim (fraction 3 fractions) [
  | none ↦ none
  | some name ↦
      if text_eq name entity
      then (elim id [
        | none ↦ some true
        | some i ↦ elim (fraction 2 fractions) [ none ↦ none | some j ↦ some (text_eq j i) ]
      ])
      else some false
]

unfoldable pub or_err : Option Text → Outcome (Option Text)
or_err none = err failed_to_parse_state
or_err (some s) = ok (some s)

unfoldable pub text_if : Option Bool → Option Text → Outcome (Option Text)
unfolding or_err
text_if none s = panic
text_if (some true) s = or_err s
text_if (some false) s = ok none

unfoldable pub is_update : Text → Bool
unfolding text_eq
is_update s = text_eq s (text "UPDATE_SET") || text_eq s (text "UPDATE_CONTENT")

-- The text of the state that a line leaves, if the line is about the entity.
unfoldable pub state_text : Text → Option Text → List Text → Outcome (Option Text)
unfolding first last before_last is_about text_if is_update text_eq
state_text entity id fractions =
    if text_eq (first fractions) (text "INSERT")
    then text_if (is_about entity id fractions) (last fractions)
    else if is_update (first fractions)
    then text_if (is_about entity id fractions) (before_last fractions)
    else ok none

unfoldable pub on_state {ℓ} :
    {A : Type ℓ} → Outcome (Option Text) → A → (Text → Outcome A) → Outcome A
on_state (err e) a k = err e
on_state panic a k = panic
on_state (ok none) a k = ok a
on_state (ok (some s)) a k = k s

-- split(';').try_for_each
unfoldable pub each_line {ℓ} :
    {A : Type ℓ} → (List Text → A → Outcome A) → List Text → A → Outcome A
unfolding split
each_line step [] a = ok a
each_line step (line ∷ lines) a = elim (step (split b'|' line) a) [
  | err e ↦ err e
  | panic ↦ panic
  | ok b ↦ each_line step lines b
]

module _ (h : Host) where
  unfoldable pub with_state {ℓ} : {A : Type ℓ} → Text → (Entity → Outcome A) → Outcome A
  with_state s k = elim (h.entity_from_ron s) [ none ↦ err failed_to_parse_state | some m ↦ k m ]

  unfoldable pub range_step :
      Text
      → Text
      → DateTime
      → DateTime
      → List Text
      → Map DateTime Entity
      → Outcome (Map DateTime Entity)
  unfolding state_text on_state with_state fraction filter_keys_and_hash Sorted.insert
  range_step entity id start_date end_date fractions hm =
      on_state (state_text entity (some id) fractions) hm (λ s. elim (fraction 1 fractions) [
        | none ↦ panic
        | some d ↦ elim (h.date_from_ron d) [
          | none ↦ err failed_to_parse_date
          | some date ↦
              if ltb start_date date && ltb date end_date
              then with_state s (λ m. ok (Sorted.insert date (filter_keys_and_hash m none) hm))
              else ok hm
        ]
      ])

  -- the `ReadEntityRange` message
  unfoldable pub read_entity_range :
      Text → Uuid → DateTime → DateTime → Text → Act (Map DateTime Entity)
  read_entity_range entity id start_date end_date date_log = do
    date_log ← read_date_log date_log
    λ w. (
      each_line (range_step entity (h.uuid_to_string id) start_date end_date) (split b';' date_log)
          [],
      w,
    )

  unfoldable pub entities_step :
      Text → Option (List Text) → List Text → Map Text Entity → Outcome (Map Text Entity)
  unfolding state_text on_state with_state fraction filter_keys_and_hash
  entities_step entity keys fractions hm = on_state (state_text entity none fractions) hm (λ s.
      with_state s (λ m. elim (fraction 2 fractions) [
        | none ↦ panic
        | some id ↦ ok (insert id (filter_keys_and_hash m keys) hm)
      ]))

  -- the `ReadEntitiesAt` message
  unfoldable pub read_entities_at : Text → Text → Option (List Text) → Act (Map Text Entity)
  read_entities_at entity date_log keys = do
    date_log ← read_date_log date_log
    λ w. (each_line (entities_step entity keys) (split b';' date_log) [], w)

  unfoldable pub id_step : Text → Text → List Text → Entity → Outcome Entity
  unfolding state_text on_state with_state
  id_step entity id fractions hm =
      on_state (state_text entity (some id) fractions) hm (λ s. with_state s (λ m. ok m))

  -- the `ReadEntityIdAt` message
  unfoldable pub read_entity_id_at : Text → Uuid → Text → Act Entity
  read_entity_id_at entity id date_log = do
    date_log ← read_date_log date_log
    λ w. (each_line (id_step entity (h.uuid_to_string id)) (split b';' date_log) [], w)

  unfoldable pub select_all_when_range_controller : Text → Uuid → Text → Text → Act Response
  select_all_when_range_controller entity id start_date end_date = do
    start_date ← or_fail date_time_parse (h.parse_date start_date)
    end_date ← or_fail date_time_parse (h.parse_date end_date)
    result ← read_entity_range entity id start_date end_date (h.file_name start_date)
    pure (Response.time_range result)

  unfoldable pub select_all_when_controller : Text → Text → Act Response
  select_all_when_controller entity date = do
    date ← or_fail date_time_parse (h.parse_date date)
    result ← read_entities_at entity (h.file_name date) none
    pure (Response.date_select result)

  unfoldable pub select_keys_when_controller : Text → Text → List Text → Act Response
  select_keys_when_controller entity date keys = do
    date ← or_fail date_time_parse (h.parse_date date)
    result ← read_entities_at entity (h.file_name date) (some keys)
    pure (Response.date_select result)

  unfoldable pub select_all_id_when_controller : Text → Text → Uuid → Act Response
  unfolding filter_keys_and_hash
  select_all_id_when_controller entity date id = do
    date ← or_fail date_time_parse (h.parse_date date)
    result ← read_entity_id_at entity id (h.file_name date)
    pure (Response.id (filter_keys_and_hash result none))

  unfoldable pub select_keys_id_when_controller : Text → Text → List Text → Uuid → Act Response
  unfolding filter_keys_and_hash
  select_keys_id_when_controller entity date keys id = do
    date ← or_fail date_time_parse (h.parse_date date)
    result ← read_entity_id_at entity id (h.file_name date)
    pure (Response.id (filter_keys_and_hash result (some keys)))
