-- ===== src/Actors/State/RoundTrip.antt =====
-- The lines of woori-db/src/core/wql.rs, as woori-db/src/actors/state.rs reads them.
use mathlib.Core.List.{append_assoc}
use wooridb.Base.{false, none, some, List, [], ◌∷◌, ◌++◌, Text, text, nat_eq, ◌≡◌, refl, ap, ◌∙◌}
use wooridb.Wql.Types.{Uuid, DateTime}
use wooridb.Model.{failed_to_parse_state, failed_to_parse_registry}
use wooridb.Host.{Host}
use wooridb.Server.{World, or_fail, pure, ◌>>=◌}
use wooridb.Actors.Lines.{
  line, insert_entity_content, update_set_entity_content, update_content_entity_content,
  delete_entity_content,
}
use wooridb.Actors.State.{split, drop_last, state, previous_registry}

-- A text without `|`.
abbrev pub HasNoBar : Text → Type 0
HasNoBar [] = Unit
HasNoBar (x ∷ s) = (nat_eq x b'|' ≡ false) × HasNoBar s

abbrev pub HaveNoBar : List Text → Type 0
HaveNoBar [] = Unit
HaveNoBar (s ∷ r) = HasNoBar s × HaveNoBar r

-- The fields of a line, the last with the `;`.
abbrev ended : List Text → List Text
ended [] = text ";" ∷ []
ended (s ∷ []) = (s ++ text ";") ∷ []
ended (s ∷ t ∷ r) = s ∷ ended (t ∷ r)

split-bar : (s t : Text) → HasNoBar s → split b'|' (s ++ b'|' ∷ t) ≡ s ∷ split b'|' t
unfolding split
split-bar [] t h = refl
split-bar (x ∷ s) t h = rw (h.0, split-bar s t h.1)

split-end : (s : Text) → HasNoBar s → split b'|' (s ++ text ";") ≡ (s ++ text ";") ∷ []
unfolding split
split-end [] h = refl
split-end (x ∷ s) h = rw (h.0, split-end s h.1)

split-line : (fs : List Text) → HaveNoBar fs → split b'|' (line fs) ≡ ended fs
unfolding line
split-line [] h = unfold split in refl
split-line (s ∷ []) h = split-end s h.0
split-line (s ∷ t ∷ r) h = split-bar s (line (t ∷ r)) h.0 ∙ ap (λ l. s ∷ l) (split-line (t ∷ r) h.1)

drop_last-end : (s : Text) → drop_last (s ++ text ";") ≡ some s
unfolding drop_last
drop_last-end [] = refl
drop_last-end (x ∷ []) = refl
drop_last-end (x ∷ y ∷ s) = rw (drop_last-end (y ∷ s))

module _ (h : Host) (date : DateTime) (id : Uuid) (name : Text) where
  -- The state of an INSERT line is read from the content that was written; it has no previous
  -- registry.
  pub insert_entity_content-reads :
      (content : Text) (w : World)
      → HaveNoBar (h.date_to_ron date ∷ h.uuid_to_string id ∷ name ∷ content ∷ [])
      → (state h (insert_entity_content h date id name content) w
          ≡ or_fail failed_to_parse_state (h.entity_from_ron content) w)
        × (previous_registry h (insert_entity_content h date id name content) w ≡ pure none w)
  unfolding state previous_registry insert_entity_content
  insert_entity_content-reads content w n = (
    rw (
      split-line (h.date_to_ron date ∷ h.uuid_to_string id ∷ name ∷ content ∷ []) n,
      drop_last-end content,
    ),
    refl,
  )

  -- The state of an UPDATE SET line is read from the current state that was written, and the
  -- previous registry from the last field.
  pub update_set_entity_content-reads :
      (content_log current_state previous : Text) (w : World)
      → HaveNoBar (
          h.date_to_ron date
          ∷ h.uuid_to_string id
          ∷ name
          ∷ content_log
          ∷ current_state
          ∷ previous
          ∷ [])
      → (state h (update_set_entity_content h date id name content_log current_state previous) w
          ≡ or_fail failed_to_parse_state (h.entity_from_ron current_state) w)
        × (previous_registry h
              (update_set_entity_content h date id name content_log current_state previous)
              w
            ≡ (or_fail failed_to_parse_registry (h.state_info_from_ron previous) >>= λ i.
                  pure (some i))
                w)
  unfolding state previous_registry update_set_entity_content
  update_set_entity_content-reads content_log current_state previous w n =
      let cut =
        split-line
          (h.date_to_ron date
            ∷ h.uuid_to_string id
            ∷ name
            ∷ content_log
            ∷ current_state
            ∷ previous
            ∷ [])
          n in
      (rw cut, rw (cut, drop_last-end previous))

  -- The same for an UPDATE CONTENT line.
  pub update_content_entity_content-reads :
      (content_log current_state previous : Text) (w : World)
      → HaveNoBar (
          h.date_to_ron date
          ∷ h.uuid_to_string id
          ∷ name
          ∷ content_log
          ∷ current_state
          ∷ previous
          ∷ [])
      → (state h (update_content_entity_content h date id name content_log current_state previous) w
          ≡ or_fail failed_to_parse_state (h.entity_from_ron current_state) w)
        × (previous_registry h
              (update_content_entity_content h date id name content_log current_state previous)
              w
            ≡ (or_fail failed_to_parse_registry (h.state_info_from_ron previous) >>= λ i.
                  pure (some i))
                w)
  unfolding state previous_registry update_content_entity_content
  update_content_entity_content-reads content_log current_state previous w n =
      let cut =
        split-line
          (h.date_to_ron date
            ∷ h.uuid_to_string id
            ∷ name
            ∷ content_log
            ∷ current_state
            ∷ previous
            ∷ [])
          n in
      (rw cut, rw (cut, drop_last-end previous))

  -- The state of a DELETE line is read from the content that was written, and the previous
  -- registry from the last field.
  pub delete_entity_content-reads :
      (content_log previous : Text) (w : World)
      → HaveNoBar (h.date_to_ron date ∷ h.uuid_to_string id ∷ name ∷ content_log ∷ previous ∷ [])
      → (state h (delete_entity_content h date id name content_log previous) w
          ≡ or_fail failed_to_parse_state (h.entity_from_ron content_log) w)
        × (previous_registry h (delete_entity_content h date id name content_log previous) w
            ≡ (or_fail failed_to_parse_registry (h.state_info_from_ron previous) >>= λ i.
                  pure (some i))
                w)
  unfolding state previous_registry delete_entity_content
  delete_entity_content-reads content_log previous w n =
      let cut =
        split-line (h.date_to_ron date ∷ h.uuid_to_string id ∷ name ∷ content_log ∷ previous ∷ [])
          n in
      (rw cut, rw (cut, drop_last-end previous))

  -- Where the content of an INSERT holds a `|`, as a string of the user may, the state is read
  -- from what follows the last one.
  pub insert_entity_content-cut :
      (before after : Text) (w : World)
      → HaveNoBar (h.date_to_ron date ∷ h.uuid_to_string id ∷ name ∷ before ∷ after ∷ [])
      → state h (insert_entity_content h date id name (before ++ b'|' ∷ after)) w
        ≡ or_fail failed_to_parse_state (h.entity_from_ron after) w
  unfolding state insert_entity_content
  insert_entity_content-cut before after w n = rw (
    append_assoc before (b'|' ∷ after) (text ";"),
    split-line (h.date_to_ron date ∷ h.uuid_to_string id ∷ name ∷ before ∷ after ∷ []) n,
    drop_last-end after,
  )
