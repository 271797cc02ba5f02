-- ===== src/Actors/Uniques/Freshness.antt =====
-- `CheckForUniqueKeys` of woori-db/src/actors/uniques.rs, one content after another.
use wooridb.Base.{
  true, false, some, List, [], ◌∷◌, Text, text_key, text_eq_refl, arith, ◌≡◌, refl, sym, ap, ◌∙◌,
  if◌then◌else◌, Bool-cases, inl, inr,
}
use wooridb.Base.Map.{Map, get, insert, contains_key, get-insert}
use wooridb.Wql.Types.{Types, Entity}
use wooridb.Model.{UniquenessContext, lock_data}
use wooridb.Host.{Host}
use wooridb.Server.{World, Outcome, ok, err, continue, ◌>>=◌}
use wooridb.Server.Rules.{continue-eq-ok}
use wooridb.Actors.Files.{unique_data}
use wooridb.Actors.Uniques.{
  is_empty, lock_uniqueness, register, register_in, save_uniqueness, check_for_unique_keys,
}
use wooridb.Actors.Uniques.Registering.{
  recorded, HasPair, Duplicated, register-keeps, register-records, register-refuses,
}

not_empty :
    (entity : Text) (m : UniquenessContext) (u : Map Text (List Text))
    → get entity m ≡ some u
    → is_empty m ≡ false
unfolding get
not_empty entity [] u g = ground arith
not_empty entity (p ∷ m) u g = refl

module _ (h : Host) (entity : Text) where
  -- Saving the context changes files alone.
  save_uniqueness-same :
      (w : World)
      → ((save_uniqueness h w).1.uniqueness ≡ w.uniqueness)
        × ((save_uniqueness h w).1.uniqueness_poisoned ≡ w.uniqueness_poisoned)
  unfolding save_uniqueness unique_data ◌>>=◌
  save_uniqueness-same w = ground arith

  -- The handler, where the entity has unique keys.
  check-register :
      (content : Entity) (w : World) (u : Map Text (List Text))
      → w.uniqueness_poisoned ≡ false
      → get entity w.uniqueness ≡ some u
      → check_for_unique_keys h entity content w
        ≡ continue
            (register h entity content u).0
            (λ _. save_uniqueness h)
            (record w { uniqueness = insert entity (register h entity content u).1 w.uniqueness })
  unfolding check_for_unique_keys lock_uniqueness register_in ◌>>=◌
  check-register content w u free g = ground (arith, not_empty entity w.uniqueness u)

  check-poisoned :
      (content : Entity) (w : World)
      → w.uniqueness_poisoned ≡ true
      → (check_for_unique_keys h entity content w).0 ≡ err lock_data
  unfolding check_for_unique_keys lock_uniqueness register_in ◌>>=◌
  check-poisoned content w e = ground arith

  -- What a success leaves.
  check-ok :
      (content : Entity) (w w' : World) (u : Map Text (List Text))
      → get entity w.uniqueness ≡ some u
      → check_for_unique_keys h entity content w ≡ (ok tt, w')
      → ((register h entity content u).0 ≡ ok tt)
        × (w'.uniqueness_poisoned ≡ false)
        × (get entity w'.uniqueness ≡ some (register h entity content u).1)
  check-ok content w w' u g e = elim (Bool-cases w.uniqueness_poisoned) [
    | inl y ↦ absurd (stuck y)
    | inr free ↦
        let (a, r, s) =
          continue-eq-ok (register h entity content u).0 (λ _. save_uniqueness h)
            (sym (check-register content w u free g) ∙ e) in
        let same = save_uniqueness-same (registered free) in
        (
          r,
          ap (λ (x : Outcome (Unit {0}) × World). x.1.uniqueness_poisoned) (sym s) ∙ same.1 ∙ free,
          ap (λ (x : Outcome (Unit {0}) × World). get entity x.1.uniqueness) (sym s)
              ∙ ap (get entity) same.0
              ∙ get-insert entity entity (register h entity content u).1 w.uniqueness
              ∙ ap
                  (λ b. if b then some (register h entity content u).1 else get entity w.uniqueness)
                  (text_eq_refl entity),
        )
  ]
    where
      stuck : w.uniqueness_poisoned ≡ true → ⊥
      stuck y = cc (check-poisoned content w y, ap (λ (x : Outcome (Unit {0}) × World). x.0) e)

      registered : w.uniqueness_poisoned ≡ false → World
      registered free = record w {
        uniqueness = insert entity (register h entity content u).1 w.uniqueness;
      }

  -- After a content has passed the check, any content that gives one of the entity's unique keys
  -- a value of the first is refused with DuplicatedUnique.
  pub check_for_unique_keys-refuses :
      (first second : Entity) (w w' : World) (u : Map Text (List Text)) (k : Text) (v : Types)
      → get entity w.uniqueness ≡ some u
      → contains_key k u ≡ true
      → HasPair k v first
      → HasPair k v second
      → check_for_unique_keys h entity first w ≡ (ok tt, w')
      → Duplicated entity (check_for_unique_keys h entity second w').0
  check_for_unique_keys-refuses first second w w' u k v g c m n e =
      let (r, free, g') = check-ok first w w' u g e in
      let (j, x, d) =
        register-refuses h entity second (register h entity first u).1 k v n
          (register-records h entity first u k v m c r) in
      (j, x, rw (check-register second w' (register h entity first u).1 free g', d))

  -- A content that stops at a duplicate still leaves the values before it recorded, and nothing
  -- that was recorded before is lost, whether the check passes or not.
  pub register_in-keeps :
      (content : Entity) (w : World) (u : Map Text (List Text)) (k x : Text)
      → get entity w.uniqueness ≡ some u
      → recorded k x u ≡ true
      → (u' : Map Text (List Text)) × (get entity (register_in h entity content w).1.uniqueness
          ≡ some u')
        × (recorded k x u' ≡ true)
  unfolding register_in
  register_in-keeps content w u k x g e = (
    (register h entity content u).1,
    ground (
      arith,
      text_eq_refl entity,
      get-insert entity entity (register h entity content u).1 w.uniqueness,
    ),
    register-keeps h entity content u k x e,
  )
