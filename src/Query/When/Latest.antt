-- ===== src/Query/When/Latest.antt =====
-- SELECT WHEN reads back what an INSERT or an UPDATE SET has written to the log of the day.
use mathlib.Core.List.{append_assoc}
use wooridb.Base.{
  ℕ, false, some, List, [], ◌∷◌, ◌++◌, Text, text, text_eq, text_eq_refl, text_key, nat_eq, arith,
  ◌≡◌, refl, sym, ap, ◌∙◌,
}
use wooridb.Base.Map.{get}
use wooridb.Wql.Types.{Entity, Uuid, DateTime}
use wooridb.Host.{Host}
use wooridb.Server.{World, Outcome, ok, err, panic, or_fail, ◌>>=◌}
use wooridb.Actors.Lines.{line, update_set_entity_content}
use wooridb.Actors.State.{split, first, before_last}
use wooridb.Query.When.{
  read_date_log, fraction, is_about, or_err, text_if, is_update, state_text, on_state, each_line,
  with_state, id_step, read_entity_id_at,
}

-- The text has no such character.
abbrev pub HasNo : ℕ → Text → Type 0
HasNo c [] = Unit
HasNo c (x ∷ s) = (nat_eq x c ≡ false) × HasNo c s

abbrev pub HaveNo : ℕ → List Text → Type 0
HaveNo c [] = Unit
HaveNo c (s ∷ r) = HasNo c s × HaveNo c r

-- A log of lines
abbrev pub log_of : List Text → Text
log_of [] = []
log_of (l ∷ ls) = l ++ b';' ∷ log_of ls

-- The fields of a line without its end
abbrev pub body : List Text → Text
body [] = []
body (s ∷ []) = s
body (s ∷ t ∷ r) = s ++ b'|' ∷ body (t ∷ r)

split-sep : (c : ℕ) (s t : Text) → HasNo c s → split c (s ++ c ∷ t) ≡ s ∷ split c t
unfolding split
split-sep c [] t h = ground arith
split-sep c (x ∷ s) t h = rw (h.0, split-sep c s t h.1)

split-last : (c : ℕ) (s : Text) → HasNo c s → split c s ≡ s ∷ []
unfolding split
split-last c [] h = refl
split-last c (x ∷ s) h = rw (h.0, split-last c s h.1)

split-log_of :
    (ls : List Text) (t : Text) → HaveNo b';' ls → split b';' (log_of ls ++ t) ≡ ls ++ split b';' t
split-log_of [] t h = refl
split-log_of (l ∷ ls) t h =
    ap (split b';') (append_assoc l (b';' ∷ log_of ls) t)
    ∙ split-sep b';' l (log_of ls ++ t) h.0
    ∙ ap (λ r. l ∷ r) (split-log_of ls t h.1)

split-body : (s : Text) (r : List Text) → HaveNo b'|' (s ∷ r) → split b'|' (body (s ∷ r)) ≡ s ∷ r
split-body s [] h = split-last b'|' s h.0
split-body s (t ∷ r) h = split-sep b'|' s (body (t ∷ r)) h.0 ∙ ap (λ l. s ∷ l) (split-body t r h.1)

line-body : (s : Text) (r : List Text) → line (s ∷ r) ≡ body (s ∷ r) ++ b';' ∷ []
unfolding line
line-body s [] = refl
line-body s (t ∷ r) =
    ap (λ l. s ++ b'|' ∷ l) (line-body t r) ∙ sym (append_assoc s (b'|' ∷ body (t ∷ r)) (b';' ∷ []))

HasNo-append : (c : ℕ) (s t : Text) → HasNo c s → HasNo c t → HasNo c (s ++ t)
HasNo-append c [] t h g = g
HasNo-append c (x ∷ s) t h g = (h.0, HasNo-append c s t h.1 g)

HasNo-body : (s : Text) (r : List Text) → HaveNo b';' (s ∷ r) → HasNo b';' (body (s ∷ r))
HasNo-body s [] h = h.0
HasNo-body s (t ∷ r) h = HasNo-append b';' s (b'|' ∷ body (t ∷ r)) h.0 (refl, HasNo-body t r h.1)

module _ {ℓ} {A : Type ℓ} (step : List Text → A → Outcome A) where
  each_line-append :
      (xs ys : List Text) (a b : A)
      → each_line step xs a ≡ ok b
      → each_line step (xs ++ ys) a ≡ each_line step ys b
  unfolding each_line
  each_line-append [] ys a b e = ground (arith, e)
  each_line-append (x ∷ xs) ys a b e =
      next (step (split b'|' x) a) (λ c. each_line-append xs ys c b) e
    where
      next :
          (o : Outcome A)
          → ((c : A)
              → each_line step xs c ≡ ok b
              → each_line step (xs ++ ys) c ≡ each_line step ys b)
          → elim o as (λ _. Outcome A) [
            | err x ↦ err x
            | panic ↦ panic
            | ok c ↦ each_line step xs c
          ]
            ≡ ok b
          → elim o as (λ _. Outcome A) [
            | err x ↦ err x
            | panic ↦ panic
            | ok c ↦ each_line step (xs ++ ys) c
          ]
            ≡ each_line step ys b
      next (ok c) k e = k c e
      next (err x) k e = ground (arith, e)
      next panic k e = ground (arith, e)

  two_lines :
      (x y : Text) (a b c : A)
      → step (split b'|' x) a ≡ ok b
      → step (split b'|' y) b ≡ ok c
      → each_line step (x ∷ y ∷ []) a ≡ ok c
  unfolding each_line
  two_lines x y a b c p q = ground (arith, p, q)

module _ (h : Host) where
  -- What is after the last `;` is no line.
  id_step-empty : (entity id : Text) (m : Entity) → id_step h entity id ([] ∷ []) m ≡ ok m
  unfolding id_step state_text on_state first is_update text_eq
  id_step-empty entity id m = refl

  -- The last line of the log decides, if it is about the id and its state is read.
  last_line :
      (entity : Text) (id : Uuid) (date_log s : Text) (r ls : List Text) (old m : Entity)
      (w : World)
      → get date_log w.disk.logs ≡ some (log_of ls ++ line (s ∷ r))
      → HaveNo b';' ls
      → HaveNo b';' (s ∷ r)
      → HaveNo b'|' (s ∷ r)
      → each_line (id_step h entity (h.uuid_to_string id)) ls [] ≡ ok old
      → id_step h entity (h.uuid_to_string id) (s ∷ r) old ≡ ok m
      → read_entity_id_at h entity id date_log w ≡ (ok m, w)
  unfolding read_entity_id_at read_date_log ◌>>=◌ or_fail
  last_line entity id date_log s r ls old m w g nl ns nb e st = rw g (
      ap (λ o. (o, w))
        (ap (λ x. each_line (id_step h entity (h.uuid_to_string id)) x []) lines
          ∙ each_line-append (id_step h entity (h.uuid_to_string id)) ls (body (s ∷ r) ∷ [] ∷ []) []
              old e
          ∙ two_lines (id_step h entity (h.uuid_to_string id)) (body (s ∷ r)) [] old m m
              (ap (λ x. id_step h entity (h.uuid_to_string id) x old) (split-body s r nb) ∙ st)
              (ap (λ x. id_step h entity (h.uuid_to_string id) x m) (split-last b'|' [] tt)
                ∙ id_step-empty entity (h.uuid_to_string id) m)))
    where
      lines : split b';' (log_of ls ++ line (s ∷ r)) ≡ ls ++ body (s ∷ r) ∷ [] ∷ []
      lines =
          split-log_of ls (line (s ∷ r)) nl
          ∙ ap (λ t. ls ++ split b';' t) (line-body s r)
          ∙ ap (λ x. ls ++ x)
              (split-sep b';' (body (s ∷ r)) [] (HasNo-body s r ns)
                ∙ ap (λ x. body (s ∷ r) ∷ x) (split-last b';' [] tt))

  id_step-update_set :
      (entity : Text) (id : Uuid) (date log current previous : Text) (old m : Entity)
      → h.entity_from_ron current ≡ some m
      → id_step h entity
          (h.uuid_to_string id)
          (text "UPDATE_SET" ∷ date ∷ h.uuid_to_string id ∷ entity ∷ log ∷ current ∷ previous ∷ [])
          old
        ≡ ok m
  unfolding id_step state_text on_state with_state first before_last is_about is_update text_if
      or_err fraction
  id_step-update_set entity id date log current previous old m e =
      ground (arith, text_eq_refl entity, text_eq_refl (h.uuid_to_string id), e)

  -- The same after the line of an UPDATE SET, for the state that it left.
  pub read_entity_id_at-update_set :
      (entity : Text) (id : Uuid) (date : DateTime) (date_log log current previous : Text)
      (ls : List Text) (old m : Entity) (w : World)
      → get date_log w.disk.logs
        ≡ some (log_of ls ++ update_set_entity_content h date id entity log current previous)
      → HaveNo b';' ls
      → HaveNo b';'
          (h.date_to_ron date ∷ h.uuid_to_string id ∷ entity ∷ log ∷ current ∷ previous ∷ [])
      → HaveNo b'|'
          (h.date_to_ron date ∷ h.uuid_to_string id ∷ entity ∷ log ∷ current ∷ previous ∷ [])
      → each_line (id_step h entity (h.uuid_to_string id)) ls [] ≡ ok old
      → h.entity_from_ron current ≡ some m
      → read_entity_id_at h entity id date_log w ≡ (ok m, w)
  unfolding update_set_entity_content
  read_entity_id_at-update_set entity id date date_log log current previous ls old m w g nl ns nb e
        c =
      last_line entity id date_log (text "UPDATE_SET")
        (h.date_to_ron date ∷ h.uuid_to_string id ∷ entity ∷ log ∷ current ∷ previous ∷ []) ls old m
        w g nl
        ((refl, (refl, (refl, (refl, (refl, (refl, (refl, (refl, (refl, (refl, tt)))))))))), ns)
        ((refl, (refl, (refl, (refl, (refl, (refl, (refl, (refl, (refl, (refl, tt)))))))))), nb) e
        (id_step-update_set entity id (h.date_to_ron date) log current previous old m c)
