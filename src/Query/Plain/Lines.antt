-- ===== src/Query/Plain/Lines.antt =====
-- The states that SELECT WHEN shows.
use wooridb.Base.{
  Bool, true, ◌&&◌, Option, none, some, List, [], ◌∷◌, Text, text_key, nat_key, ltb, ◌≡◌, refl,
  Option-cases, Bool-cases, inl, inr,
}
use wooridb.Base.Map.{Map}
use wooridb.Wql.Types.{Entity, DateTime}
use wooridb.Host.{Host}
use wooridb.Server.{Outcome, ok, err, panic}
use wooridb.Actors.State.{split}
use wooridb.Query.States.{filter_keys_and_hash}
use wooridb.Query.When.{
  fraction, state_text, on_state, each_line, with_state, range_step, entities_step,
}
use wooridb.Query.Plain.{plain, all_plain, all-insert, all-insert_sorted_map}
use wooridb.Query.Plain.Pages.{filter_keys_and_hash-plain}

module _ {ℓ} {A : Type ℓ} (p : A → Bool) where
  -- What holds of an outcome's value
  abbrev pub holds : Outcome A → Bool
  holds (ok a) = p a
  holds (err e) = true
  holds panic = true

  on_state-holds :
      (o : Outcome (Option Text)) (a : A) (k : Text → Outcome A)
      → p a ≡ true
      → ((s : Text) → holds (k s) ≡ true)
      → holds (on_state o a k) ≡ true
  unfolding on_state
  on_state-holds (ok none) a k pa pk = pa
  on_state-holds (ok (some s)) a k pa pk = pk s
  on_state-holds (err e) a k pa pk = refl
  on_state-holds panic a k pa pk = refl

  next_line-holds :
      (o : Outcome A) (rest : A → Outcome A)
      → holds o ≡ true
      → ((b : A) → p b ≡ true → holds (rest b) ≡ true)
      → holds (elim o as (λ _. Outcome A) [ err e ↦ err e | panic ↦ panic | ok b ↦ rest b ]) ≡ true
  next_line-holds (ok b) rest q k = k b q
  next_line-holds (err e) rest q k = refl
  next_line-holds panic rest q k = refl

  pub each_line-holds :
      (step : List Text → A → Outcome A) (lines : List Text) (a : A)
      → ((fs : List Text) (b : A) → p b ≡ true → holds (step fs b) ≡ true)
      → p a ≡ true
      → holds (each_line step lines a) ≡ true
  unfolding each_line
  each_line-holds step [] a k pa = pa
  each_line-holds step (line ∷ lines) a k pa =
      next_line-holds (step (split b'|' line) a) (each_line step lines) (k (split b'|' line) a pa)
        (λ b q. each_line-holds step lines b k q)

module _ (h : Host) where
  with_state-holds {ℓ} :
      {A : Type ℓ} (p : A → Bool) (s : Text) (k : Entity → Outcome A)
      → ((m : Entity) → holds p (k m) ≡ true)
      → holds p (with_state h s k) ≡ true
  unfolding with_state
  with_state-holds p s k c = elim (Option-cases (h.entity_from_ron s)) [
    | inl n ↦ rw (n, with_state) refl
    | inr (m, q) ↦ rw (q, with_state) (c m)
  ]

  pub entities_step-plain :
      (entity : Text) (keys : Option (List Text)) (fs : List Text) (hm : Map Text Entity)
      → all_plain hm ≡ true
      → holds all_plain (entities_step h entity keys fs hm) ≡ true
  unfolding entities_step
  entities_step-plain entity keys fs hm a =
      on_state-holds all_plain (state_text entity none fs) hm _ a (λ s.
        with_state-holds all_plain s _ (λ m. elim (Option-cases (fraction 2 fs)) [
          | inl n ↦ rw n refl
          | inr (id, q) ↦ rw q (
              all-insert plain id (filter_keys_and_hash m keys) hm
                (filter_keys_and_hash-plain m keys) a)
        ]))

  pub range_step-plain :
      (entity id : Text) (start_date end_date : DateTime) (fs : List Text)
      (hm : Map DateTime Entity)
      → all_plain hm ≡ true
      → holds all_plain (range_step h entity id start_date end_date fs hm) ≡ true
  unfolding range_step
  range_step-plain entity id start_date end_date fs hm a =
      on_state-holds all_plain (state_text entity (some id) fs) hm _ a (λ s.
        elim (Option-cases (fraction 1 fs)) [
          | inl n ↦ rw n refl
          | inr (d, q) ↦ elim (Option-cases (h.date_from_ron d)) [
            | inl n ↦ rw (q, n) refl
            | inr (date, e) ↦ elim (Bool-cases (ltb start_date date && ltb date end_date)) [
              | inr b ↦ rw (q, e, b) a
              | inl b ↦
                  rw (q, e, b)
                    (with_state-holds all_plain s _ (λ m.
                      all-insert_sorted_map plain date (filter_keys_and_hash m none) hm
                        (filter_keys_and_hash-plain m none) a))
            ]
          ]
        ])
