-- ===== src/Actors/State.antt =====
-- Reading an event back from its line: `State` and `PreviousRegistry` of
-- woori-db/src/actors/state.rs.
pub mod RoundTrip
use wooridb.Base.{
  ℕ, Bool, ◌||◌, Option, none, some, List, [], ◌∷◌, Text, text, text_eq, nat_eq, leb, if◌then◌else◌,
}
use wooridb.Wql.Types.{Entity}
use wooridb.Model.{StateInfo, failed_to_parse_state, failed_to_parse_registry}
use wooridb.Host.{Host}
use wooridb.Server.{Act, fail, pure, unwrap, or_fail, ◌>>=◌}

-- str::split
unfoldable pub cons_head : ℕ → List Text → List Text
cons_head x [] = (x ∷ []) ∷ []
cons_head x (s ∷ r) = (x ∷ s) ∷ r

unfoldable pub split : ℕ → Text → List Text
unfolding cons_head
split c [] = [] ∷ []
split c (x ∷ s) = let rest = split c s in if nat_eq x c then [] ∷ rest else cons_head x rest

unfoldable pub first : List Text → Text
first [] = []
first (s ∷ r) = s

unfoldable pub last : List Text → Option Text
last [] = none
last (s ∷ []) = some s
last (s ∷ t ∷ r) = last (t ∷ r)

-- fractions.get(fractions.len() - 2)
unfoldable pub before_last : List Text → Option Text
before_last [] = none
before_last (s ∷ []) = none
before_last (s ∷ t ∷ []) = some s
before_last (s ∷ t ∷ u ∷ r) = before_last (t ∷ u ∷ r)

-- &s[..s.len() - 1], which panics on an empty text and inside a character
unfoldable pub drop_last : Text → Option Text
drop_last [] = none
drop_last (x ∷ []) = if leb 128 x then none else some []
drop_last (x ∷ y ∷ s) = elim (drop_last (y ∷ s)) [ none ↦ none | some r ↦ some (x ∷ r) ]

unfoldable pub is_update_or_delete : Text → Bool
unfolding text_eq
is_update_or_delete s =
    text_eq s (text "UPDATE_SET") || text_eq s (text "UPDATE_CONTENT") || text_eq s (text "DELETE")

module _ (h : Host) where
  unfoldable pub state : Text → Act Entity
  unfolding split first last before_last drop_last is_update_or_delete ◌>>=◌
  state msg =
      let fractions = split b'|' msg in
      if text_eq (first fractions) (text "INSERT")
      then (do
        s ← or_fail failed_to_parse_state (last fractions)
        s ← unwrap (drop_last s)
        or_fail failed_to_parse_state (h.entity_from_ron s))
      else if is_update_or_delete (first fractions)
      then (do
        s ← or_fail failed_to_parse_state (before_last fractions)
        or_fail failed_to_parse_state (h.entity_from_ron s))
      else fail failed_to_parse_state

  unfoldable pub previous_registry : Text → Act (Option StateInfo)
  unfolding split first last drop_last is_update_or_delete ◌>>=◌
  previous_registry msg =
      let fractions = split b'|' msg in
      if text_eq (first fractions) (text "INSERT")
      then pure none
      else if is_update_or_delete (first fractions)
      then (do
        s ← or_fail failed_to_parse_registry (last fractions)
        s ← unwrap (drop_last s)
        info ← or_fail failed_to_parse_registry (h.state_info_from_ron s)
        pure (some info))
      else fail failed_to_parse_registry
