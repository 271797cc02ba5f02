-- ===== src/Base/Lists.antt =====
-- Lists over the native numbers, under the library's names, and slices of files.
use Prim.Native.Nat.{ℕ, zero, suc, ◌+◌, ◌≤◌}
use mathlib.Core.Path.{◌≡◌, refl, ap, ◌∙◌}
use mathlib.Core.Bool.{Bool, true, false, ◌&&◌, ◌||◌}
use mathlib.Core.List.{List, [], ◌∷◌, ◌++◌}
use native.Mathlib.Omega.{arith}
use wooridb.Base.Tests.{if◌then◌else◌}

zero_add : (n : ℕ) → 0 + n ≡ n
zero_add n = omega arith

suc_add : (m n : ℕ) → suc m + n ≡ suc (m + n)
suc_add m n = omega arith

module _ {ℓ} {A : Type ℓ} where
  abbrev pub length : List A → ℕ
  length [] = 0
  length (x ∷ xs) = suc (length xs)

  abbrev pub take : ℕ → List A → List A
  take zero xs = []
  take (suc n) [] = []
  take (suc n) (x ∷ xs) = x ∷ take n xs

  abbrev pub drop : ℕ → List A → List A
  drop zero xs = xs
  drop (suc n) [] = []
  drop (suc n) (x ∷ xs) = drop n xs

  unfoldable pub filter : (A → Bool) → List A → List A
  filter p [] = []
  filter p (x ∷ xs) = let rest = filter p xs in if p x then x ∷ rest else rest

  pub filter_congr :
      (p q : A → Bool) → ((x : A) → p x ≡ q x) → (xs : List A) → filter p xs ≡ filter q xs
  unfolding filter
  filter_congr p q e [] = refl
  filter_congr p q e (x ∷ xs) = rw (e x, filter_congr p q e xs)

  pub filter-filter :
      (p q : A → Bool) (xs : List A) → filter p (filter q xs) ≡ filter (λ x. q x && p x) xs
  unfolding filter
  filter-filter p q [] = refl
  filter-filter p q (x ∷ xs) = ground (arith, filter-filter p q xs)

  pub filter-true : (xs : List A) → filter (λ x. true) xs ≡ xs
  unfolding filter
  filter-true [] = refl
  filter-true (x ∷ xs) = rw (filter-true xs)

  unfoldable pub any : (A → Bool) → List A → Bool
  any p [] = false
  any p (x ∷ xs) = p x || any p xs

  unfoldable pub all : (A → Bool) → List A → Bool
  all p [] = true
  all p (x ∷ xs) = p x && all p xs

  pub length-append : (xs ys : List A) → length (xs ++ ys) ≡ length xs + length ys
  length-append [] ys = omega arith
  length-append (x ∷ xs) ys = omega (arith, length-append xs ys)

  pub drop-length-append : (xs ys : List A) → drop (length xs) (xs ++ ys) ≡ ys
  drop-length-append [] ys = refl
  drop-length-append (x ∷ xs) ys = drop-length-append xs ys

  pub take-length : (xs : List A) → take (length xs) xs ≡ xs
  take-length [] = refl
  take-length (x ∷ xs) = rw (take-length xs)

  pub take-append_le : (n : ℕ) (xs ys : List A) → n ≤ length xs → take n (xs ++ ys) ≡ take n xs
  take-append_le zero xs ys h = refl
  take-append_le (suc n) [] ys h = absurd (omega arith)
  take-append_le (suc n) (x ∷ xs) ys h = rw (take-append_le n xs ys (omega arith))

  -- A slice that lies inside a list is the same after something is appended.
  pub slice-append :
      (off len : ℕ) (xs ys : List A)
      → off + len ≤ length xs
      → take len (drop off (xs ++ ys)) ≡ take len (drop off xs)
  slice-append zero len xs ys h = take-append_le len xs ys (omega arith)
  slice-append (suc off) zero [] ys h = refl
  slice-append (suc off) (suc len) [] ys h = absurd (omega arith)
  slice-append (suc off) len (x ∷ xs) ys h = slice-append off len xs ys (omega arith)

  take-append_full :
      (n : ℕ) (xs ys : List A) → length (take n xs) ≡ n → take n (xs ++ ys) ≡ take n xs
  take-append_full zero xs ys h = refl
  take-append_full (suc n) [] ys h = absurd (omega arith)
  take-append_full (suc n) (x ∷ xs) ys h = rw (take-append_full n xs ys (omega arith))

  -- A slice that is found whole is the same after something is appended.
  pub slice-append_full :
      (off len : ℕ) (xs ys : List A)
      → length (take len (drop off xs)) ≡ len
      → take len (drop off (xs ++ ys)) ≡ take len (drop off xs)
  slice-append_full zero len xs ys h = take-append_full len xs ys h
  slice-append_full (suc off) zero [] ys h = refl
  slice-append_full (suc off) (suc len) [] ys h = absurd (omega arith)
  slice-append_full (suc off) len (x ∷ xs) ys h = slice-append_full off len xs ys h

  take_nil : (n : ℕ) → take n [] ≡ []
  take_nil zero = refl
  take_nil (suc n) = refl

  drop_nil : (n : ℕ) → drop n [] ≡ []
  drop_nil zero = refl
  drop_nil (suc n) = refl

  pub take_add : (a b : ℕ) (xs : List A) → take (a + b) xs ≡ take a xs ++ take b (drop a xs)
  take_add a b [] = rw (take_nil (a + b), drop_nil a, take_nil a, take_nil b) refl
  take_add zero b (x ∷ xs) = ap (λ n. take n (x ∷ xs)) (zero_add b)
  take_add (suc a) b (x ∷ xs) =
      ap (λ n. take n (x ∷ xs)) (suc_add a b) ∙ ap (λ r. x ∷ r) (take_add a b xs)

  pub drop_add : (a b : ℕ) (xs : List A) → drop (a + b) xs ≡ drop b (drop a xs)
  drop_add a b [] = rw (drop_nil (a + b), drop_nil a, drop_nil b) refl
  drop_add zero b (x ∷ xs) = ap (λ n. drop n (x ∷ xs)) (zero_add b)
  drop_add (suc a) b (x ∷ xs) = ap (λ n. drop n (x ∷ xs)) (suc_add a b) ∙ drop_add a b xs

  pub take_all : (n : ℕ) (xs : List A) → length xs ≤ n → take n xs ≡ xs
  take_all zero [] h = refl
  take_all (suc n) [] h = refl
  take_all zero (x ∷ xs) h = absurd (omega arith)
  take_all (suc n) (x ∷ xs) h = rw (take_all n xs (omega arith))
