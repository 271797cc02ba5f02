-- ===== src/Query/Join/Nested.antt =====
-- JOIN through the hash table is the nested loop over both lists of states.
use wooridb.Base.{
  Bool, true, false, some, List, [], ◌∷◌, ◌++◌, Text, text_eq_iff, text_eq_refl, filter, arith, ◌≡◌,
  refl, sym, ap, ◌∙◌, if◌then◌else◌, Bool-cases, inl, inr,
}
use wooridb.Base.Int.{pos, negsuc, compare_ℤ}
use wooridb.Wql.Types.{
  Types, char, integer, string, uuid, float, boolean, vector, map, hash, precise, date_time, nil,
  Entity, Float64, types_eq,
}
use wooridb.Query.Dedup.{value_or_nil}
use wooridb.Query.Response.{Response}
use wooridb.Query.Join.{
  joinable, hash as hash_states, parse, naming, Table, rows, push, hash_loop, combine, combine_each,
  parse_states,
}
use mathlib.Core.List.{append-nil, append_assoc}

-- No float, whose equality is the machine's, and no value that holds others.
abbrev pub is_simple : Types → Bool
is_simple (float x) = false
is_simple (vector v) = false
is_simple (map m) = false
is_simple _ = true

module _ (f : Float64) where
  simple-eq : (u v : Types) → is_simple u ≡ true → types_eq f u v ≡ true → u ≡ v
  unfolding types_eq compare_ℤ
  simple-eq (char a) (char b) s h = ground arith
  simple-eq (integer (pos a)) (integer (pos b)) s h = ground arith
  simple-eq (integer (pos a)) (integer (negsuc b)) s h = ground arith
  simple-eq (integer (negsuc a)) (integer (pos b)) s h = ground arith
  simple-eq (integer (negsuc a)) (integer (negsuc b)) s h = ground arith
  simple-eq (string a) (string b) s h = ap string ((text_eq_iff a b).0 h)
  simple-eq (uuid a) (uuid b) s h = ground arith
  simple-eq (boolean true) (boolean b) s h = ground arith
  simple-eq (boolean false) (boolean true) s h = ground arith
  simple-eq (boolean false) (boolean false) s h = refl
  simple-eq (hash a) (hash b) s h = ap hash ((text_eq_iff a b).0 h)
  simple-eq (precise a) (precise b) s h = ap precise ((text_eq_iff a b).0 h)
  simple-eq (date_time a) (date_time b) s h = ground arith
  simple-eq nil nil s h = refl
  simple-eq _ _ s h = ground arith

  simple_refl : (u : Types) → is_simple u ≡ true → types_eq f u u ≡ true
  unfolding types_eq compare_ℤ
  simple_refl (char a) s = ground arith
  simple_refl (integer (pos a)) s = ground arith
  simple_refl (integer (negsuc a)) s = ground arith
  simple_refl (string a) s = text_eq_refl a
  simple_refl (uuid a) s = ground arith
  simple_refl (boolean true) s = refl
  simple_refl (boolean false) s = refl
  simple_refl (hash a) s = text_eq_refl a
  simple_refl (precise a) s = text_eq_refl a
  simple_refl (date_time a) s = ground arith
  simple_refl nil s = refl
  simple_refl (float a) s = ground arith
  simple_refl (vector a) s = ground arith
  simple_refl (map a) s = ground arith

  AreSimple : Table → Type 0
  AreSimple [] = Unit
  AreSimple ((u, group) ∷ table) = (is_simple u ≡ true) × AreSimple table

  push-AreSimple :
      (v : Types) (s : Entity) (table : Table)
      → is_simple v ≡ true
      → AreSimple table
      → AreSimple (push f v s table)
  unfolding push AreSimple
  push-AreSimple v s [] sv a = (sv, tt)
  push-AreSimple v s ((u, group) ∷ table) sv a = elim (Bool-cases (types_eq f u v)) [
    | inl p ↦ rw p a
    | inr n ↦ rw n (a.0, push-AreSimple v s table sv a.1)
  ]

  with_row : Bool → List Entity → Entity → List Entity
  with_row b group s = if b then group ++ s ∷ [] else group

  apart :
      (u v x : Types)
      → is_simple u ≡ true
      → is_simple v ≡ true
      → types_eq f u v ≡ false
      → types_eq f u x ≡ true
      → types_eq f v x ≡ false
  apart u v x su sv n p = elim (Bool-cases (types_eq f v x)) [
    | inr q ↦ q
    | inl q ↦
        let e = simple-eq u x su p ∙ sym (simple-eq v x sv q) in
        absurd (ground (arith, sym (simple_refl u su) ∙ ap (types_eq f u) e ∙ n))
  ]

  -- One more state is one more row under its value.
  rows-push :
      (v x : Types) (s : Entity) (table : Table)
      → is_simple v ≡ true
      → AreSimple table
      → rows f x (push f v s table) ≡ with_row (types_eq f v x) (rows f x table) s
  unfolding rows push AreSimple with_row
  rows-push v x s [] sv a = refl
  rows-push v x s ((u, group) ∷ table) sv a = elim (Bool-cases (types_eq f u v)) [
    | inl p ↦
        rw (p, simple-eq u v a.0 p)
          (elim (Bool-cases (types_eq f v x)) [ inl q ↦ rw q refl | inr q ↦ rw q refl ])
    | inr n ↦ rw n (elim (Bool-cases (types_eq f u x)) [
      | inl q ↦ rw (q, apart u v x a.0 sv n q) refl
      | inr q ↦ rw q (rows-push v x s table sv a.1)
    ])
  ]

  -- The values of the key are simple.
  abbrev pub HaveSimple : Text → List Entity → Type 0
  HaveSimple key [] = Unit
  HaveSimple key (t ∷ states) = (is_simple (value_or_nil key t) ≡ true) × HaveSimple key states

  abbrev pub matches : Text → Types → Entity → Bool
  matches key x t = types_eq f (value_or_nil key t) x

  rows-hash_loop :
      (key : Text) (x : Types) (states : List Entity) (table : Table)
      → HaveSimple key states
      → AreSimple table
      → rows f x (hash_loop f key states table) ≡ rows f x table ++ filter (matches key x) states
  unfolding hash_loop filter with_row
  rows-hash_loop key x [] table hs a = sym (append-nil (rows f x table))
  rows-hash_loop key x (t ∷ states) table hs a =
      let v = value_or_nil key t in
      rows-hash_loop key x states (push f v t table) hs.1 (push-AreSimple v t table hs.0 a)
      ∙ ap (λ r. r ++ filter (matches key x) states) (rows-push v x t table hs.0 a)
      ∙ elim (Bool-cases (types_eq f v x)) [
        | inl q ↦ rw q (append_assoc (rows f x table) (t ∷ []) (filter (matches key x) states))
        | inr q ↦ rw q refl
      ]

  -- For each state of the first list, and each of the second whose value is equal, in the order of
  -- both lists.
  abbrev pub nested : (Text → Entity → Text) → Text → Text → List Entity → List Entity → List Entity
  nested name key key_b [] second = []
  nested name key key_b (s ∷ first) second =
      combine_each (λ ent. combine name key_b ent s)
        (filter (matches key_b (value_or_nil key s)) second)
      ++ nested name key key_b first second

  -- The join through the table of the second list's values is the nested loop over both lists,
  -- where the second list's values are neither floats, vectors nor maps.
  pub parse_states-nested :
      (name : Text → Entity → Text) (key key_b : Text) (first second : List Entity)
      → HaveSimple key_b second
      → parse_states f name key key_b first (hash_loop f key_b second [])
        ≡ nested name key key_b first second
  unfolding parse_states AreSimple rows
  parse_states-nested name key key_b [] second hs = refl
  parse_states-nested name key key_b (s ∷ first) second hs =
      rw
        (
          rows-hash_loop key_b (value_or_nil key s) second [] hs tt,
          parse_states-nested name key key_b first second hs,
        )
        refl

  -- JOIN of two answers that it takes is the nested loop over their states, where the second
  -- answer's values of the key are neither floats, vectors nor maps.
  pub parse-hash :
      (a b : Response) (key ent key_b : Text) (first second : List Entity) (table : Table)
      → joinable a ≡ some first
      → joinable b ≡ some second
      → HaveSimple key_b second
      → hash_states f key_b b ≡ some table
      → parse f a key (ent, key_b) table ≡ some (nested (naming a ent) key key_b first second)
  unfolding parse hash_states
  parse-hash a b key ent key_b first second table p q hs e =
      rw (p, parse)
        (ap some (
          ap (parse_states f (naming a ent) key key_b first) (sym (table_of e))
          ∙ parse_states-nested (naming a ent) key key_b first second hs))
    where
      table_of : hash_states f key_b b ≡ some table → hash_loop f key_b second [] ≡ table
      table_of = rw (q, hash_states) (λ e'. ground (arith, e'))
