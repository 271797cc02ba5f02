-- ===== src/Wql/Parser/Algebra/Termination.antt =====
-- The loop of `algebra_functions` of wql/src/select.rs ends.
use wooridb.Base.{
  ℕ, zero, suc, ◌+◌, ◌≤◌, Bool, true, false, not, Option, some, [], ◌∷◌, Text, text_eq, any,
  text_key, length, arith, ◌≡◌, refl, sym, ap, ◌∙◌, ◌⊎◌, inl, inr, if◌then◌else◌, Bool-cases,
  Option-cases,
}
use wooridb.Base.Map.{Map, insert, is_some}
use wooridb.Wql.Ast.{Algebra}
use wooridb.Wql.Parser.{
  Chars, Unicode, Parsed, parsed, refused, panics, Parser, give, refuse, go_on, ◌>>=◌, skip_while,
  take_while, word, upper_word,
}
use wooridb.Wql.Parser.Algebra.{
  is_algebra, read_by, read_order, number, read_function, algebra_step, algebra_functions,
  order_from_str, parse_usize, available,
}

skip_while-length : (p : ℕ → Bool) (cs : Chars) → length (skip_while p cs) ≤ length cs
unfolding skip_while
skip_while-length p [] = omega arith
skip_while-length p (c ∷ cs) = ground (arith, skip_while-length p cs)

-- What is taken is shorter by it than the rest.
take_while-length :
    (p : ℕ → Bool) (cs : Chars)
    → length (take_while p cs).0 + length (take_while p cs).1 ≤ length cs
unfolding take_while
take_while-length p [] = omega arith
take_while-length p (c ∷ cs) = ground (arith, take_while-length p cs)

-- What is left is no longer than before.
abbrev Within {ℓ} : {A : Type ℓ} → ℕ → Parsed (A × Chars) → Type 0
Within n (parsed (a, r)) = length r ≤ n
Within n (refused t) = Unit
Within n panics = Unit

record Shrinks {ℓ} {A : Type ℓ} (m : Parser A) : Type ℓ where
  at : (cs : Chars) → Within (length cs) (m cs)

-- After a turn of the loop there is no symbol, or what is left is shorter.
abbrev Turns : ℕ → Parsed ((Algebra × Chars) × Chars) → Type 0
Turns n (parsed ((f, symbol), r)) = (symbol ≡ []) ⊎ (suc (length r) ≤ n)
Turns n (refused t) = Unit
Turns n panics = Unit

Turns-mono : (m n : ℕ) (r : Parsed ((Algebra × Chars) × Chars)) → m ≤ n → Turns m r → Turns n r
Turns-mono m n (parsed ((f, symbol), r)) le (inl e) = inl e
Turns-mono m n (parsed ((f, symbol), r)) le (inr l) = inr (omega (arith, le, l))
Turns-mono m n (refused t) le x = tt
Turns-mono m n panics le x = tt

module _ {A : Type 0} where
  go_on-Turns :
      (n : ℕ) (r : Parsed (A × Chars)) (f : A → Parser (Algebra × Chars))
      → Within n r
      → ((a : A) (cs : Chars) → Turns (length cs) (f a cs))
      → Turns n (go_on r f)
  go_on-Turns n (parsed (a, cs)) f w k = Turns-mono (length cs) n (f a cs) w (k a cs)
  go_on-Turns n (refused t) f w k = tt
  go_on-Turns n panics f w k = tt

  bind-Turns :
      (m : Parser A) (f : A → Parser (Algebra × Chars)) (cs : Chars)
      → Shrinks m
      → ((a : A) (ds : Chars) → Turns (length ds) (f a ds))
      → Turns (length cs) ((m >>= f) cs)
  unfolding ◌>>=◌
  bind-Turns m f cs s k = go_on-Turns (length cs) (m cs) f (s.at cs) k

Within-trans : {A : Type 0} (m n : ℕ) (r : Parsed (A × Chars)) → m ≤ n → Within m r → Within n r
Within-trans m n (parsed (a, r)) le w = omega (arith, le, w)
Within-trans m n (refused t) le w = tt
Within-trans m n panics le w = tt

Within-if :
    {A : Type 0} (n : ℕ) (b : Bool) (x y : Parsed (A × Chars))
    → Within n x
    → Within n y
    → Within n (if b then x else y)
Within-if n true x y wx wy = wx
Within-if n false x y wx wy = wy

module _ {A B : Type 0} where
  go_on-Within :
      (n : ℕ) (r : Parsed (A × Chars)) (f : A → Parser B)
      → Within n r
      → ((a : A) → Shrinks (f a))
      → Within n (go_on r f)
  go_on-Within n (parsed (a, cs)) f w k = Within-trans (length cs) n (f a cs) w ((k a).at cs)
  go_on-Within n (refused t) f w k = tt
  go_on-Within n panics f w k = tt

  bind-Shrinks :
      (m : Parser A) (f : A → Parser B) → Shrinks m → ((a : A) → Shrinks (f a)) → Shrinks (m >>= f)
  unfolding ◌>>=◌
  bind-Shrinks m f s k = record { at = λ cs. go_on-Within (length cs) (m cs) f (s.at cs) k }

le_refl : (n : ℕ) → n ≤ n
le_refl n = omega arith

module _ {A : Type 0} where
  Within-parsed : (a : A) (cs : Chars) → Within (length cs) (parsed (a, cs))
  Within-parsed a cs = le_refl (length cs)

  give-Shrinks : (a : A) → Shrinks (give a)
  unfolding give
  give-Shrinks a = record { at = λ cs. le_refl (length cs) }

  refuse-Shrinks : (t : Text) → Shrinks {A = A} (refuse t)
  unfolding refuse
  refuse-Shrinks t = record { at = λ cs. tt }

  if-Shrinks : (b : Bool) (m n : Parser A) → Shrinks m → Shrinks n → Shrinks (if b then m else n)
  if-Shrinks true m n sm sn = sm
  if-Shrinks false m n sm sn = sn

Within-refused : (n : ℕ) (t : Text) → Within {A = Algebra} n (refused t)
Within-refused n t = tt

module _ (u : Unicode) where
  word-length : (cs : Chars) → length (word u cs).0 + length (word u cs).1 ≤ length cs
  unfolding word
  word-length cs = omega (
    arith,
    take_while-length (λ c. not (u.is_whitespace c)) (skip_while u.is_whitespace cs),
    skip_while-length u.is_whitespace cs,
  )

  word-rest : (cs : Chars) → length (word u cs).1 ≤ length cs
  word-rest cs = omega (arith, word-length cs)

  word-Shrinks : Shrinks (λ cs. parsed (word u cs))
  word-Shrinks = record { at = λ cs. word-rest cs }

  upper_word-Shrinks : Shrinks (upper_word u)
  unfolding upper_word
  upper_word-Shrinks = record { at = λ cs. word-rest cs }

  read_by-Shrinks : (next : Chars) → Shrinks (read_by u next)
  unfolding read_by
  read_by-Shrinks next =
      search (bind-Shrinks, give-Shrinks, refuse-Shrinks, if-Shrinks, upper_word-Shrinks)

  read_order-Within : (value : Text) (cs : Chars) → Within (length cs) (read_order u value cs)
  unfolding read_order
  read_order-Within value cs = elim (Option-cases (order_from_str (u.to_lowercase (word u cs).0))) [
    | inl n ↦ rw (n, read_order) tt
    | inr (ord, e) ↦ rw (e, read_order) (word-rest cs)
  ]

  number-Within : (f : ℕ → Algebra) (value cs : Chars) → Within (length cs) (number u f value cs)
  number-Within f value cs = elim (Option-cases (parse_usize value)) [
    | inl n ↦ rw (n, Within) tt
    | inr (k, e) ↦ rw (e, Within) (le_refl (length cs))
  ]

  read_function-Shrinks : (next value : Chars) → Shrinks (read_function u next value)
  unfolding read_function
  read_function-Shrinks next value = record {
    at = λ cs.
        search (Within-if, Within-parsed, Within-refused, read_order-Within, number-Within) depth
          12;
  }

  -- The upper case of nothing is nothing.
  module _ (empty : u.to_uppercase [] ≡ []) where
    last-Turns :
        (f : Algebra) (cs : Chars)
        → Turns (length cs) ((upper_word u >>= λ symbol. give (f, symbol)) cs)
    unfolding upper_word ◌>>=◌ give
    last-Turns f cs = by (word u cs).0 refl
      where
        by :
            (w : Chars)
            → w ≡ (word u cs).0
            → (u.to_uppercase (word u cs).0 ≡ []) ⊎ (suc (length (word u cs).1) ≤ length cs)
        by [] e = inl (ap u.to_uppercase (sym e) ∙ empty)
        by (c ∷ w) e = inr (omega (arith, word-length cs, ap length e))

    algebra_step-Turns : (next cs : Chars) → Turns (length cs) (algebra_step u next cs)
    unfolding algebra_step
    algebra_step-Turns next cs = bind-Turns (read_by u next) _ cs (read_by-Shrinks next) (λ _ cs.
        bind-Turns _ _ cs word-Shrinks (λ value cs.
          bind-Turns (read_function u next value) (λ f. upper_word u >>= λ symbol. give (f, symbol))
            cs (read_function-Shrinks next value) (λ f cs. last-Turns f cs)))

    no_symbol-ends :
        (fuel : ℕ) (functions : Map Text Algebra) (cs : Chars)
        → is_some (algebra_functions u (suc fuel) [] functions cs) ≡ true
    unfolding algebra_functions is_some is_algebra any text_eq
    no_symbol-ends fuel functions [] = refl
    no_symbol-ends fuel functions (c ∷ cs) = refl

    turn-ends :
        (fuel : ℕ) (next : Chars) (functions : Map Text Algebra) (cs : Chars)
        → ((symbol : Chars) (fs : Map Text Algebra) (rest : Chars)
            → (symbol ≡ []) ⊎ (suc (length rest) ≤ length cs)
            → is_some (algebra_functions u fuel symbol fs rest) ≡ true)
        → is_some (algebra_functions u (suc fuel) next functions cs) ≡ true
    unfolding algebra_functions is_some
    turn-ends fuel next functions cs k = elim (Bool-cases (is_algebra next)) [
      | inr n ↦ rw n (at_end cs)
      | inl y ↦ rw y (by (algebra_step u next cs) (algebra_step-Turns next cs))
    ]
      where
        at_end :
            (ds : Chars)
            → is_some (elim ds as (λ _. Option (Parsed (Map Text Algebra × Chars))) [
              | [] ↦ some (parsed (functions, []))
              | c ∷ r ↦ some (refused available)
            ])
              ≡ true
        at_end [] = refl
        at_end (c ∷ r) = refl

        by :
            (r : Parsed ((Algebra × Chars) × Chars))
            → Turns (length cs) r
            → is_some (elim r as (λ _. Option (Parsed (Map Text Algebra × Chars))) [
              | refused t ↦ some (refused t)
              | panics ↦ some panics
              | parsed ((f, symbol), rest) ↦
                  algebra_functions u fuel symbol (insert next f functions) rest
            ])
              ≡ true
        by (parsed ((f, symbol), rest)) t = k symbol (insert next f functions) rest t
        by (refused t) x = refl
        by panics x = refl

    -- Given as many steps as there are characters left, and two more, the loop ends: with the
    -- functions, with an error or with a panic.
    pub algebra_functions-ends :
        (fuel : ℕ) (next : Chars) (functions : Map Text Algebra) (cs : Chars)
        → suc (suc (length cs)) ≤ fuel
        → is_some (algebra_functions u fuel next functions cs) ≡ true
    algebra_functions-ends zero next functions cs le = absurd (omega (arith, le))
    algebra_functions-ends (suc zero) next functions cs le = absurd (omega (arith, le))
    algebra_functions-ends (suc (suc fuel)) next functions cs le =
        turn-ends (suc fuel) next functions cs (λ symbol fs rest t. elim t [
          | inl e ↦ rw e (no_symbol-ends fuel fs rest)
          | inr l ↦ algebra_functions-ends (suc fuel) symbol fs rest (omega (arith, le, l))
        ])
