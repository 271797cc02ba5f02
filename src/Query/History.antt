-- ===== src/Query/History.antt =====
-- The history of an entity: woori-db/src/actors/history.rs, and `history_controller` of
-- woori-db/src/controllers/entity_history.rs without its reading of the body.
pub mod Chain
use wooridb.Base.{
  ℕ, zero, suc, Bool, true, false, not, ◌&&◌, Option, none, some, List, [], ◌∷◌, Text, text,
  text_eq, text_key, nat_key, ltb, leb, if◌then◌else◌,
}
use wooridb.Base.Map.{Map}
use wooridb.Base.Sorted as Sorted
use wooridb.Wql.Types.{Entity, DateTime}
use wooridb.Model.{
  DataRegister, EntityHistoryInfo, failed_to_parse_state, failed_to_parse_registry, ron,
}
use wooridb.Host.{Host}
use wooridb.Server.{World, Outcome, ok, err, panic, Act, pure, fail, unwrap, or_fail, ◌>>=◌, ◌>>◌}
use wooridb.Actors.Files.{read_log}
use wooridb.Actors.State.{split, first, last, before_last, drop_last, is_update_or_delete}
use wooridb.Query.States.{filter_keys_and_hash}
use wooridb.Query.When.{fraction}
use wooridb.Query.Select.{get_registry}

abbrev pub HistoryRegistry : Type 0
HistoryRegistry = Entity × DateTime × Option DataRegister

module _ (h : Host) where
  unfoldable pub get_date : List Text → Outcome DateTime
  unfolding fraction
  get_date fractions = elim (fraction 1 fractions) [
    | none ↦ err failed_to_parse_state
    | some s ↦ elim (h.date_from_ron s) [ none ↦ err failed_to_parse_state | some d ↦ ok d ]
  ]

  content_of : Option Text → Outcome Entity
  content_of none = err failed_to_parse_state
  content_of (some s) = elim (h.entity_from_ron s) [
    | none ↦ err failed_to_parse_state
    | some m ↦ ok m
  ]

  unfoldable pub get_insert_content : List Text → Outcome Entity
  unfolding content_of last drop_last
  get_insert_content fractions = elim (last fractions) [
    | none ↦ err failed_to_parse_state
    | some s ↦ elim (drop_last s) [ none ↦ panic | some t ↦ content_of (some t) ]
  ]

  unfoldable pub get_other_content : List Text → Outcome Entity
  unfolding content_of before_last
  get_other_content fractions = content_of (before_last fractions)

  -- A state info, or else a register alone.
  registry_of : Text → Outcome (Option DataRegister)
  registry_of t = elim (h.state_info_from_ron t) [
    | some info ↦ ok (some info.0)
    | none ↦ elim (h.register_from_ron t) [
      | none ↦ err failed_to_parse_registry
      | some r ↦ ok (some r)
    ]
  ]

  unfoldable pub get_previous_registry : List Text → Outcome (Option DataRegister)
  unfolding registry_of last drop_last
  get_previous_registry fractions = elim (last fractions) [
    | none ↦ err failed_to_parse_registry
    | some s ↦ elim (drop_last s) [ none ↦ panic | some t ↦ registry_of t ]
  ]

  -- What was computed before is asked for its panic first, then for its errors, in this order.
  unfoldable pub no_panic {ℓ} : {A : Type ℓ} → Outcome A → Act (Unit {0})
  no_panic panic w = (panic, w)
  no_panic _ w = (ok tt, w)

  unfoldable pub question {ℓ} : {A : Type ℓ} → Outcome A → Act A
  question r w = (r, w)

  -- the `History` message
  unfoldable pub history : Text → Act HistoryRegistry
  unfolding split first is_update_or_delete get_date get_insert_content get_other_content
      get_previous_registry no_panic question ◌>>=◌
  history msg =
      let fractions = split b'|' msg in
      if text_eq (first fractions) (text "INSERT")
      then (do
        content ← question (get_insert_content fractions)
        date ← question (get_date fractions)
        pure (content, date, none))
      else if is_update_or_delete (first fractions)
      then (do
        no_panic (get_previous_registry fractions)
        content ← question (get_other_content fractions)
        date ← question (get_date fractions)
        previous ← question (get_previous_registry fractions)
        pure (content, date, previous))
      else fail failed_to_parse_state

-- What the loop does with a date: to keep the event, and to go on.
abbrev pub after_end : Option DateTime → DateTime → Bool
after_end none date = false
after_end (some e) date = ltb e date

abbrev pub from_start : Option DateTime → DateTime → Bool
from_start none date = true
from_start (some s) date = leb s date

unfoldable pub is_wanted : EntityHistoryInfo → DateTime → Bool
is_wanted info date = from_start info.start_datetime date && not (after_end info.end_datetime date)

-- With both bounds, or with the end alone, a date after the end stops the loop.
unfoldable pub stops : EntityHistoryInfo → DateTime → Bool
stops info date = after_end info.end_datetime date

unfoldable pub add_event :
    EntityHistoryInfo → DateTime → Entity → Map DateTime Entity → Map DateTime Entity
unfolding is_wanted Sorted.insert
add_event info date content btree =
    if is_wanted info date then Sorted.insert date content btree else btree

-- The final filter of every state.
unfoldable pub without_hashes : Map DateTime Entity → Map DateTime Entity
unfolding filter_keys_and_hash
without_hashes [] = []
without_hashes ((date, content) ∷ btree) =
    (date, filter_keys_and_hash content none) ∷ without_hashes btree

module _ (h : Host) where
  -- `break`, or the previous register's event
  unfoldable pub next_event :
      Bool
      → Option DataRegister
      → Map DateTime Entity
      → Map DateTime Entity
      → (Text → Map DateTime Entity → Act (Option (Map DateTime Entity)))
      → Act (Option (Map DateTime Entity))
  next_event true previous btree more loop = pure (some btree)
  next_event false none btree more loop = pure (some more)
  next_event false (some previous) btree more loop = do
    content ← read_log h previous
    loop content more

  -- The loop; `none` where the fuel does not do.
  unfoldable pub history_loop :
      ℕ → EntityHistoryInfo → Text → Map DateTime Entity → Act (Option (Map DateTime Entity))
  history_loop zero info content btree = pure none
  history_loop (suc fuel) info content btree = do
    event ← history h content
    next_event (stops info event.1) event.2 btree (add_event info event.1 event.0 btree)
        (history_loop fuel info)

  unfoldable pub history_controller : ℕ → EntityHistoryInfo → Act (Option (Map DateTime Entity))
  history_controller fuel info = do
    registry ← get_registry info.entity_key info.entity_id
    content ← read_log h registry.0
    btree ← history_loop fuel info content []
    elim btree [ none ↦ pure none | some events ↦ pure (some (without_hashes events)) ]
