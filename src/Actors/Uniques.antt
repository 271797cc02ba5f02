-- ===== src/Actors/Uniques.antt =====
-- Unique keys: woori-db/src/actors/uniques.rs. A HashSet<String> is a list.
pub mod Registering
pub mod Freshness
use wooridb.Base.{
  Bool, true, false, none, some, List, [], ◌∷◌, Text, text_key, text_eq, any, if◌then◌else◌,
}
use wooridb.Base.Map.{Map, get, insert, contains_key}
use wooridb.Wql.Types.{Entity}
use wooridb.Model.{UniquenessContext, lock_data, duplicated_unique, ron}
use wooridb.Host.{Host}
use wooridb.Server.{Outcome, ok, err, Act, pure, gets, or_fail, ◌>>=◌, ◌>>◌}
use wooridb.Actors.Files.{unique_data}

unfoldable pub contains : Text → List Text → Bool
unfolding any text_eq
contains x = any (λ y. text_eq y x)

unfoldable pub lock_uniqueness : Act UniquenessContext
lock_uniqueness w = if w.uniqueness_poisoned then (err lock_data, w) else (ok w.uniqueness, w)

unfoldable pub put_uniqueness : UniquenessContext → Act (Unit {0})
put_uniqueness m w = (ok tt, record w { uniqueness = m })

-- entry(k).or_insert(v)
unfoldable pub or_insert : Text → Map Text (List Text) → UniquenessContext → UniquenessContext
or_insert k v m = if contains_key k m then m else insert k v m

unfoldable pub or_insert_each : Text → List Text → UniquenessContext → UniquenessContext
unfolding or_insert
or_insert_each entity [] m = m
or_insert_each entity (name ∷ r) m =
    or_insert_each entity r (or_insert entity (insert name [] []) m)

unfoldable pub empty_sets : List Text → Map Text (List Text)
empty_sets [] = []
empty_sets (name ∷ r) = insert name [] (empty_sets r)

abbrev pub is_empty {ℓ} : {A : Type ℓ} → List A → Bool
is_empty [] = true
is_empty (x ∷ r) = false

-- `try_for_each` over the content: the values before a duplicate stay recorded.
module _ (h : Host) where
  unfoldable pub register :
      Text → Entity → Map Text (List Text) → Outcome (Unit {0}) × Map Text (List Text)
  unfolding contains
  register entity [] u = (ok tt, u)
  register entity ((k, v) ∷ content) u = elim (get k u) [
    | none ↦ register entity content u
    | some vals ↦ elim (contains (h.debug v) vals) [
      | true ↦ (err (duplicated_unique entity k v), u)
      | false ↦ register entity content (insert k (h.debug v ∷ vals) u)
    ]
  ]

  -- Serialise the context and write it to data/unique_data.log.
  unfoldable pub save_uniqueness : Act (Unit {0})
  save_uniqueness = do
    m ← gets (λ w. w.uniqueness)
    unique_ron ← or_fail ron (h.uniqueness_to_ron m)
    unique_data h unique_ron

  unfoldable pub create_with_unique_keys : Text → List Text → Act (Unit {0})
  create_with_unique_keys entity uniques = do
    m ← lock_uniqueness
    put_uniqueness (
        if contains_key entity m
        then or_insert_each entity uniques m
        else insert entity (empty_sets uniques) m)
    save_uniqueness

  -- The content is recorded under the entity's unique keys, also where it stops at a duplicate.
  unfoldable pub register_in : Text → Entity → Act (Unit {0})
  unfolding register
  register_in entity content w = elim (get entity w.uniqueness) [
    | none ↦ (ok tt, w)
    | some u ↦
        let (r, u') = register entity content u in
        (r, record w { uniqueness = insert entity u' w.uniqueness })
  ]

  unfoldable pub check_for_unique_keys : Text → Entity → Act (Unit {0})
  check_for_unique_keys entity content = do
    m ← lock_uniqueness
    if is_empty m then pure tt else (do register_in entity content; save_uniqueness)
