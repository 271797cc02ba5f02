-- ===== src/Wql/Parser/Statements/RoundTrip.antt =====
-- `delete` and `evict` of wql/src/language_parser.rs on statements in their plain form.
use wooridb.Base.{
  ℕ, Bool, true, false, not, ◌&&◌, ◌||◌, [], ◌∷◌, text, text_eq, all, nat_eq, nat_eq_iff, ◌++◌,
  arith, inl, inr, Bool-cases, ◌≡◌, refl, ap, ◌∙◌,
}
use wooridb.Wql.Ast.{delete}
use wooridb.Wql.Parser.{
  Chars, Unicode, parsed, give, ◌>>=◌, skip_while, take_while, trim, trim_end, word, upper_word,
}
use wooridb.Wql.Parser.Statements.{name_of, is_empty, in_id, in_name, delete_statement}

clash : {b : Bool} → b ≡ false → b ≡ true → ⊥
clash e f = ground arith

both : (a b : Bool) → a && b ≡ true → (a ≡ true) × (b ≡ true)
both true b h = (refl, h)
both false b h = ground arith

take_while-stops :
    (p : ℕ → Bool) (xs : Chars) (c : ℕ) (r : Chars)
    → all p xs ≡ true
    → p c ≡ false
    → take_while p (xs ++ (c ∷ r)) ≡ (xs, r)
unfolding take_while all
take_while-stops p [] c r h n = rw n refl
take_while-stops p (x ∷ xs) c r h n =
    let (px, pxs) = both (p x) (all p xs) h in rw (px, take_while-stops p xs c r pxs n) refl

take_while-all : (p : ℕ → Bool) (xs : Chars) → all p xs ≡ true → take_while p xs ≡ (xs, [])
unfolding take_while all
take_while-all p [] h = refl
take_while-all p (x ∷ xs) h =
    let (px, pxs) = both (p x) (all p xs) h in rw (px, take_while-all p xs pxs) refl

trim_end-plain : (p : ℕ → Bool) (xs : Chars) → all (λ c. not (p c)) xs ≡ true → trim_end p xs ≡ xs
unfolding trim_end all
trim_end-plain p [] h = refl
trim_end-plain p (x ∷ []) h = ground arith
trim_end-plain p (x ∷ y ∷ xs) h =
    let (px, pxs) = both (not (p x)) (all (λ c. not (p c)) (y ∷ xs)) h in
    rw (trim_end-plain p (y ∷ xs) pxs) refl

skip_while-plain :
    (p : ℕ → Bool) (xs : Chars) → all (λ c. not (p c)) xs ≡ true → skip_while p xs ≡ xs
unfolding skip_while all
skip_while-plain p [] h = refl
skip_while-plain p (x ∷ xs) h = ground arith

skip_while-first : (p : ℕ → Bool) (c : ℕ) (r : Chars) → p c ≡ false → skip_while p (c ∷ r) ≡ c ∷ r
unfolding skip_while
skip_while-first p c r n = rw n refl

all_mono :
    (p q : ℕ → Bool)
    → ((c : ℕ) → p c ≡ true → q c ≡ true)
    → (xs : Chars) → all p xs ≡ true
    → all q xs ≡ true
unfolding all
all_mono p q k [] h = refl
all_mono p q k (x ∷ xs) h =
    let (px, pxs) = both (p x) (all p xs) h in rw (k x px, all_mono p q k xs pxs) refl

module _ (u : Unicode) where
  trim-plain : (xs : Chars) → all (λ c. not (u.is_whitespace c)) xs ≡ true → trim u xs ≡ xs
  unfolding trim
  trim-plain xs h = rw (skip_while-plain u.is_whitespace xs h) (trim_end-plain u.is_whitespace xs h)

  -- The characters p are not white.
  name_of-stops :
      (p : ℕ → Bool) (xs : Chars) (c : ℕ) (r : Chars)
      → all p xs ≡ true
      → p c ≡ false
      → all (λ c. not (u.is_whitespace c)) xs ≡ true
      → name_of u p (xs ++ (c ∷ r)) ≡ parsed (xs, r)
  unfolding name_of
  name_of-stops p xs c r h n w = rw (take_while-stops p xs c r h n, trim-plain xs w) refl

  name_of-all :
      (p : ℕ → Bool) (xs : Chars)
      → all p xs ≡ true
      → all (λ c. not (u.is_whitespace c)) xs ≡ true
      → name_of u p xs ≡ parsed (xs, [])
  unfolding name_of
  name_of-all p xs h w = rw (take_while-all p xs h, trim-plain xs w) refl

  delete_statement-by :
      (cs cs₁ cs₂ cs₃ id name : Chars)
      → name_of u (in_id u) cs ≡ parsed (id, cs₁)
      → is_empty id ≡ false
      → text_eq id (text "FROM") ≡ false
      → upper_word u cs₁ ≡ parsed (text "FROM", cs₂)
      → name_of u (in_name u) cs₂ ≡ parsed (name, cs₃)
      → is_empty name ≡ false
      → delete_statement u cs ≡ parsed (delete (u.utf8 name) (u.utf8 id), cs₃)
  unfolding delete_statement ◌>>=◌ give text_eq
  delete_statement-by cs cs₁ cs₂ cs₃ id name e₁ ei ef e₂ e₃ en = rw (e₁, ei, ef, e₂, e₃, en) refl

  -- What the statements rely on of Unicode.
  pub record Plain : Type 0 where
    pub space_white : u.is_whitespace b' ' ≡ true
    pub alphanumeric_not_white : (c : ℕ) → u.is_alphanumeric c ≡ true → u.is_whitespace c ≡ false
    pub dash_not_white : u.is_whitespace b'-' ≡ false
    pub underscore_not_white : u.is_whitespace b'_' ≡ false
    pub from_alphanumeric : all u.is_alphanumeric (text "FROM") ≡ true
    pub from_upper : u.to_uppercase (text "FROM") ≡ text "FROM"

  module _ (plain : Plain) where
    not_white : (c : ℕ) → u.is_alphanumeric c ≡ true → not (u.is_whitespace c) ≡ true
    not_white c h = rw (plain.alphanumeric_not_white c h) refl

    or_mark :
        (d c : ℕ)
        → u.is_whitespace d ≡ false
        → u.is_alphanumeric c || nat_eq c d ≡ true
        → not (u.is_whitespace c) ≡ true
    or_mark d c n h = elim (Bool-cases (u.is_alphanumeric c)) [
      | inl a ↦ not_white c a
      | inr a ↦ rw ((nat_eq_iff c d).0 (alone (u.is_alphanumeric c) (nat_eq c d) a h), n) refl
    ]
      where
        alone : (a b : Bool) → a ≡ false → a || b ≡ true → b ≡ true
        alone a b e h = ground arith

    in_name-not_white : (c : ℕ) → in_name u c ≡ true → not (u.is_whitespace c) ≡ true
    in_name-not_white c h = or_mark b'_' c plain.underscore_not_white h

    in_id-not_white : (c : ℕ) → in_id u c ≡ true → not (u.is_whitespace c) ≡ true
    in_id-not_white c h = or_mark b'-' c plain.dash_not_white h

    space-not_alphanumeric : u.is_alphanumeric b' ' ≡ false
    space-not_alphanumeric = elim (Bool-cases (u.is_alphanumeric b' ')) [
      | inl a ↦ absurd (clash (plain.alphanumeric_not_white b' ' a) plain.space_white)
      | inr n ↦ n
    ]

    space-not_in_id : in_id u b' ' ≡ false
    space-not_in_id = rw space-not_alphanumeric refl

    from-not_white : all (λ c. not (u.is_whitespace c)) (text "FROM") ≡ true
    from-not_white = all_mono _ _ not_white (text "FROM") plain.from_alphanumeric

    from_all : u.is_alphanumeric b'F' && all u.is_alphanumeric (text "ROM") ≡ true
    unfolding all
    from_all = plain.from_alphanumeric

    word-from : (r : Chars) → word u (text "FROM " ++ r) ≡ (text "FROM", r)
    unfolding word
    word-from r =
        rw
          (skip_while-first u.is_whitespace b'F' (text "ROM " ++ r)
            (plain.alphanumeric_not_white b'F' (both _ _ from_all).0))
          (take_while-stops (λ c. not (u.is_whitespace c)) (text "FROM") b' ' r from-not_white
            (rw plain.space_white refl))

    upper_word-from : (r : Chars) → upper_word u (text "FROM " ++ r) ≡ parsed (text "FROM", r)
    unfolding upper_word
    upper_word-from r =
        ap (λ w. parsed (u.to_uppercase w.0, w.1)) (word-from r)
        ∙ ap (λ w. parsed (w, r)) plain.from_upper

    -- Where letters and digits are not white and the blank is, DELETE of an id, FROM and an entity
    -- name reads as the deletion of that id of that entity: for an id and a name that are not
    -- empty, of the characters each may have, the id not being the word FROM.
    pub delete_statement-reads :
        (id name : Chars)
        → all (in_id u) id ≡ true
        → all (in_name u) name ≡ true
        → is_empty id ≡ false
        → text_eq id (text "FROM") ≡ false
        → is_empty name ≡ false
        → delete_statement u (id ++ (text " FROM " ++ name))
          ≡ parsed (delete (u.utf8 name) (u.utf8 id), [])
    delete_statement-reads id name hi hn ei ef en =
        delete_statement-by _ _ _ _ id name
          (name_of-stops (in_id u) id b' ' (text "FROM " ++ name) hi space-not_in_id
            (all_mono _ _ in_id-not_white id hi))
          ei ef (upper_word-from name)
          (name_of-all (in_name u) name hn (all_mono _ _ in_name-not_white name hn)) en
