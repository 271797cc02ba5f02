-- ===== src/Tx/Rules/Growing.antt =====
-- The steps that add: to the logs, to the unique values, to the keys under encryption.
use mathlib.Core.List.{append-nil}
use wooridb.Base.{
  Bool, true, false, ◌≡◌, take, refl, sym, ap, ◌∙◌, some, Option, none, List, Text, text_eq,
  text_eq_iff, text_key, nat_key, ◌++◌, [], ◌∷◌, if◌then◌else◌, arith, Bool-cases, inl, inr,
}
use wooridb.Base.Map.{
  Map, get, get-insert, get-insert_self, get-insert_ne, contains_key, insert, is_some,
}
use wooridb.Model.{UniquenessContext}
use wooridb.Host.{Host}
use wooridb.Wql.Types.{Entity}
use wooridb.Server.{World, Act, pure, ◌>>=◌}
use wooridb.Server.Files.{Disk, IoResult, done, not_opened, not_written, short}
use wooridb.Actors.Files.{write_to_log, append_log, called, or_empty}
use wooridb.Actors.Encrypts.{create_with_encryption, to_set, put_encryption}
use wooridb.Actors.Uniques.{
  check_for_unique_keys, create_with_unique_keys, register, register_in, save_uniqueness,
  put_uniqueness, or_insert_each, or_insert, empty_sets,
}
use wooridb.Actors.Uniques.Registering.{register-keeps, recorded}
use wooridb.Tx.Rules.{extends, Extends, Keeps, Holds-trans, Holds-refl}
use wooridb.Tx.Rules.Locks.{Keeps-lock_uniqueness, Keeps-lock_encryption, Holds-if}
use wooridb.Tx.Rules.Calm.{save_uniqueness-Keeps, calm_rules}

-- The other parts are as they were.
Extends-logs :
    (w v : World)
    → ((file t : Text)
        → get file w.disk.logs ≡ some t
        → (s : Text) × (get file v.disk.logs ≡ some (t ++ s)))
    → v.encryption ≡ w.encryption
    → v.uniqueness ≡ w.uniqueness
    → Extends w v
Extends-logs w v h e u = record {
  logs = h;
  encryption = λ entity keys g. ap (get entity) e ∙ g;
  uniqueness = λ entity m k x g r. (m, ap (get entity) u ∙ g, r);
}

Extends-uniqueness :
    (w v : World)
    → ((entity : Text) (u : Map Text (List Text)) (k x : Text)
        → get entity w.uniqueness ≡ some u
        → recorded k x u ≡ true
        → (u' : Map Text (List Text)) × (get entity v.uniqueness ≡ some u')
          × (recorded k x u' ≡ true))
    → v.disk.logs ≡ w.disk.logs
    → v.encryption ≡ w.encryption
    → Extends w v
Extends-uniqueness w v h l e = record {
  logs = λ file t g. ([], ap (get file) l ∙ g ∙ ap some (sym (append-nil t)));
  encryption = λ entity keys g. ap (get entity) e ∙ g;
  uniqueness = h;
}

-- The same but for the counter and the local data.
pub Keeps-extends {ℓ} :
    {A : Type ℓ} (m : Act A)
    → ((w : World)
        → ((m w).1.disk.logs ≡ w.disk.logs)
          × ((m w).1.encryption ≡ w.encryption)
          × ((m w).1.uniqueness ≡ w.uniqueness))
    → Keeps extends m
Keeps-extends m h = record {
  at = λ w.
      let (l, e, u) = h w in
      Extends-uniqueness w (m w).1 (λ entity x k y g r. (x, ap (get entity) u ∙ g, r)) l e;
}

append_log-grows :
    (file bytes : Text) (d : Disk) (f t : Text)
    → get f d.logs ≡ some t
    → (s : Text) × (get f (append_log file bytes d).logs ≡ some (t ++ s))
unfolding append_log
append_log-grows file bytes d f t g = elim (Bool-cases (text_eq file f)) [
  | inl y ↦ (
    bytes,
    get-insert file f (or_empty (get file d.logs) ++ bytes) d.logs
        ∙ ap (λ b. if b then some (or_empty (get file d.logs) ++ bytes) else get f d.logs) y
        ∙ ap (λ o. some (or_empty o ++ bytes))
            (ap (λ x. get x d.logs) ((text_eq_iff file f).0 y) ∙ g),
  )
  | inr n ↦ (
    [],
    get-insert file f (or_empty (get file d.logs) ++ bytes) d.logs
        ∙ ap (λ b. if b then some (or_empty (get file d.logs) ++ bytes) else get f d.logs) n
        ∙ g
        ∙ ap some (sym (append-nil t)),
  )
]

missing-ne {ℓ} :
    {V : Type ℓ} (entity other : Text) (m : Map Text V) (u : V)
    → contains_key entity m ≡ false
    → get other m ≡ some u
    → text_eq entity other ≡ false
unfolding contains_key is_some
missing-ne entity other m u n g = elim (Bool-cases (text_eq entity other)) [
  | inl y ↦ ground (arith, ap (λ o. get o m) ((text_eq_iff entity other).0 y))
  | inr f ↦ f
]

module _ (h : Host) where
  pub write_to_log-Keeps : (line : Text) → Keeps extends (write_to_log h line)
  unfolding write_to_log
  write_to_log-Keeps line = record { at = λ w. ending w (h.io w.disk.io_count) refl }
    where
      ending :
          (w : World) (o : IoResult)
          → h.io w.disk.io_count ≡ o
          → Extends w (write_to_log h line w).1
      ending w done e =
          rw (e, write_to_log)
            (Extends-logs w _ (append_log-grows (h.file_name w.now) line (called w.disk)) refl refl)
      ending w not_opened e =
          rw (e, write_to_log)
            (Extends-logs w _ (λ f t g. ([], g ∙ ap some (sym (append-nil t)))) refl refl)
      ending w (not_written n) e =
          rw (e, write_to_log)
            (Extends-logs w _ (append_log-grows (h.file_name w.now) [] (called w.disk)) refl refl)
      ending w (short n) e =
          rw (e, write_to_log)
            (Extends-logs w _ (append_log-grows (h.file_name w.now) (take n line) (called w.disk))
              refl refl)

  pub register_in-Keeps :
      (entity : Text) (content : Entity) → Keeps extends (register_in h entity content)
  unfolding register_in
  register_in-Keeps entity content = record { at = λ w. at w (get entity w.uniqueness) refl }
    where
      at :
          (w : World) (o : Option (Map Text (List Text)))
          → get entity w.uniqueness ≡ o
          → Extends w (register_in h entity content w).1
      at w none e =
          rw (e, register_in)
            (Extends-logs w _ (λ f t g. ([], g ∙ ap some (sym (append-nil t)))) refl refl)
      at w (some u) e =
          rw (e, register_in)
            (Extends-uniqueness w _
              (λ other m k x g r. grown other m k x g r (text_eq entity other) refl) refl refl)
        where
          grown :
              (other : Text) (m : Map Text (List Text)) (k x : Text)
              → get other w.uniqueness ≡ some m
              → recorded k x m ≡ true
              → (b : Bool) → text_eq entity other ≡ b
              → (u' : Map Text (List Text)) × (get other
                    (insert entity (register h entity content u).1 w.uniqueness)
                  ≡ some u')
                × (recorded k x u' ≡ true)
          grown other m k x g r true y =
              let p = (text_eq_iff entity other).0 y in
              (
                (register h entity content u).1,
                ap (λ o. get o (insert entity (register h entity content u).1 w.uniqueness)) (sym p)
                    ∙ get-insert_self entity (register h entity content u).1 w.uniqueness,
                register-keeps h entity content u k x
                    (ground (arith, ap (λ o. get o w.uniqueness) p)),
              )
          grown other m k x g r false y =
              (m, get-insert_ne entity other (register h entity content u).1 w.uniqueness y ∙ g, r)

  pub check_for_unique_keys-Keeps :
      (entity : Text) (content : Entity) → Keeps extends (check_for_unique_keys h entity content)
  unfolding check_for_unique_keys
  check_for_unique_keys-Keeps entity content = search (calm_rules, register_in-Keeps)

  or_insert_each-same :
      (entity : Text) (names : List Text) (m : UniquenessContext)
      → contains_key entity m ≡ true
      → or_insert_each entity names m ≡ m
  unfolding or_insert_each or_insert
  or_insert_each-same entity [] m e = refl
  or_insert_each-same entity (n ∷ names) m e = rw e (or_insert_each-same entity names m e)

  -- An entity that has unique keys has them after CREATE ENTITY of any entity.
  create_with_unique_keys-grows :
      (entity other : Text) (names : List Text) (m : UniquenessContext) (u : Map Text (List Text))
      → get other m ≡ some u
      → get other (
          if contains_key entity m
          then or_insert_each entity names m
          else insert entity (empty_sets names) m)
        ≡ some u
  create_with_unique_keys-grows entity other names m u g =
      elim (Bool-cases (contains_key entity m)) [
        | inl y ↦ rw (y, or_insert_each-same entity names m y) g
        | inr n ↦
            rw n (
              get-insert_ne entity other (empty_sets names) m (missing-ne entity other m u n g) ∙ g)
      ]

  pub create_with_unique_keys-Keeps :
      (entity : Text) (names : List Text) → Keeps extends (create_with_unique_keys h entity names)
  unfolding create_with_unique_keys put_uniqueness ◌>>=◌
  create_with_unique_keys-Keeps entity names = Keeps-lock_uniqueness _ (λ w.
      let m =
        if contains_key entity w.uniqueness
        then or_insert_each entity names w.uniqueness
        else insert entity (empty_sets names) w.uniqueness in
      Holds-trans extends w (record w { uniqueness = m })
        (save_uniqueness h (record w { uniqueness = m })).1
        (Extends-uniqueness w _
          (λ other u k x g r.
            (u, create_with_unique_keys-grows entity other names w.uniqueness u g, r))
          refl refl)
        ((save_uniqueness-Keeps {r = extends} h).at (record w { uniqueness = m })))

pub create_with_encryption-Keeps :
    (entity : Text) (names : List Text) → Keeps extends (create_with_encryption entity names)
unfolding create_with_encryption put_encryption pure
create_with_encryption-Keeps entity names = Keeps-lock_encryption _ (λ w.
    Holds-if extends w (contains_key entity w.encryption) _ _ (Holds-refl extends w) (λ n. record {
      logs = λ file t g. ([], g ∙ ap some (sym (append-nil t)));
      encryption = λ other keys g.
          get-insert_ne entity other (to_set names) w.encryption
            (missing-ne entity other w.encryption keys n g)
          ∙ g;
      uniqueness = λ other u k x g r. (u, g, r);
    }))
