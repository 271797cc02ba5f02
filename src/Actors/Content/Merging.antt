-- ===== src/Actors/Content/Merging.antt =====
-- What UPDATE CONTENT does to a state: `update_content_state` of woori-db/src/core/wql.rs.
use wooridb.Base.{
  Bool, true, false, Option, none, some, [], ◌∷◌, ◌++◌, Text, text_eq, text_key, text_eq_iff, arith,
  ◌≡◌, refl, ◌∙◌, ◌⊎◌, inl, inr, if◌then◌else◌,
}
use wooridb.Base.Map.{get, get-insert}
use wooridb.Base.Int.{pos, ◌+ℤ◌, wrap}
use wooridb.Wql.Types.{
  Types, char, integer, string, uuid, float, boolean, vector, hash, precise, date_time, nil,
  default_values, Entity, Uuid, DateTime, Float64,
}
use wooridb.Actors.Content.{merge, or_default, update_content_state, update_content_states}

-- The keys of a HashMap differ.
abbrev pub HasDistinctKeys : Entity → Type 0
HasDistinctKeys [] = Unit
HasDistinctKeys ((k, v) ∷ m) = (get k m ≡ none) × HasDistinctKeys m

-- How a kind of value takes an update: it is replaced, or added to.
abbrev pub Adds : Types → Type 0
Adds (integer i) = Unit
Adds (float x) = Unit
Adds (string s) = Unit
Adds (vector v) = Unit
Adds (Types.map m) = Unit
Adds (hash s) = Unit
Adds _ = ⊥

abbrev pub SameKind : Types → Types → Type 0
SameKind (char a) (char b) = Unit
SameKind (integer a) (integer b) = Unit
SameKind (string a) (string b) = Unit
SameKind (uuid a) (uuid b) = Unit
SameKind (float a) (float b) = Unit
SameKind (boolean a) (boolean b) = Unit
SameKind (vector a) (vector b) = Unit
SameKind (Types.map a) (Types.map b) = Unit
SameKind (hash a) (hash b) = Unit
SameKind (precise a) (precise b) = Unit
SameKind (date_time a) (date_time b) = Unit
SameKind nil nil = Unit
SameKind _ _ = ⊥

abbrev pub IsNumber : Types → Type 0
IsNumber (integer i) = Unit
IsNumber (float x) = Unit
IsNumber _ = ⊥

abbrev pub IsFloat : Types → Type 0
IsFloat (float x) = Unit
IsFloat _ = ⊥

-- No new value, or an integer or a string where nothing or a value of the same kind is stored.
abbrev pub is_addition : Option Types → Option Types → Bool
is_addition none old = true
is_addition (some (integer i)) none = true
is_addition (some (integer i)) (some (integer a)) = true
is_addition (some (string s)) none = true
is_addition (some (string s)) (some (string t)) = true
is_addition _ _ = false

-- What is stored after an addition of the new value to the old one.
abbrev pub sum : Option Types → Option Types → Option Types
sum none old = old
sum (some (integer i)) none = some (integer (wrap (pos 0 +ℤ i)))
sum (some (integer i)) (some (integer a)) = some (integer (wrap (a +ℤ i)))
sum (some (string s)) none = some (string s)
sum (some (string s)) (some (string t)) = some (string (t ++ s))
sum _ _ = none

module _ (f : Float64) (fresh : Uuid) (now : DateTime) where
  get-update_content_state :
      (st : Entity) (k j : Text) (v : Types)
      → get j (update_content_state f fresh now st k v)
        ≡ (if text_eq k j then some (merge f (or_default f fresh now v (get k st)) v) else get j st)
  unfolding update_content_state
  get-update_content_state st k j v = get-insert k j _ st

  -- The value of a key after the update, from the content's value and the old one.
  abbrev pub merged : Option Types → Option Types → Option Types
  merged none old = old
  merged (some v) old = some (merge f (or_default f fresh now v old) v)

  merged-sum : (new old : Option Types) → is_addition new old ≡ true → merged new old ≡ sum new old
  unfolding merge default_values
  merged-sum none old a = refl
  merged-sum (some (integer i)) none a = refl
  merged-sum (some (integer i)) (some (integer x)) a = refl
  merged-sum (some (string s)) none a = refl
  merged-sum (some (string s)) (some (string t)) a = refl
  merged-sum _ _ a = ground arith

  -- Each key of the content is merged with the old value, or with the default of the new value's
  -- kind, once and in any order of the content; every other key keeps its value.
  pub get-update_content_states :
      (st content : Entity) (j : Text)
      → HasDistinctKeys content
      → get j (update_content_states f fresh now st content) ≡ merged (get j content) (get j st)
  unfolding update_content_states get
  get-update_content_states st [] j d = refl
  get-update_content_states st ((k, v) ∷ content) j d =
      get-update_content_states (update_content_state f fresh now st k v) content j d.1
      ∙ step (text_eq k j) refl
    where
      step :
          (b : Bool)
          → text_eq k j ≡ b
          → merged (get j content) (get j (update_content_state f fresh now st k v))
            ≡ merged (if b then some v else get j content) (get j st)
      step true e = ground (arith, text_eq_iff k j, get-update_content_state st k j v, d.0)
      step false e = ground (arith, text_eq_iff k j, get-update_content_state st k j v)

  -- UPDATE CONTENT leaves a key alone that the content does not have, whatever other keys it has;
  -- adds an integer to a stored integer, or to 0 where nothing is stored, with wrap-around; and
  -- appends a string to a stored string, or stores it where nothing is stored.
  pub update_content_states-adds :
      (st content : Entity) (j : Text)
      → HasDistinctKeys content
      → is_addition (get j content) (get j st) ≡ true
      → get j (update_content_states f fresh now st content) ≡ sum (get j content) (get j st)
  update_content_states-adds st content j d a =
      get-update_content_states st content j d ∙ merged-sum (get j content) (get j st) a

  -- An update with a number, a string, a vector, a map or a hash leaves the kind of the stored
  -- value as it was, or makes a number a float.
  pub merge-SameKind :
      (local v : Types)
      → Adds v
      → SameKind local (merge f local v) ⊎ (IsNumber local × IsFloat (merge f local v))
  unfolding merge
  merge-SameKind (integer a) (float x) h = inr (tt, tt)
  merge-SameKind local (float x) h = inl tt
  merge-SameKind local (integer i) h = inl tt
  merge-SameKind local (string t) h = inl tt
  merge-SameKind local (vector v) h = inl tt
  merge-SameKind local (Types.map m) h = inl tt
  merge-SameKind local (hash t) h = inl tt
  merge-SameKind local _ h = absurd h
