-- ===== src/Query/Ordering/Ascending.antt =====
-- ORDER on integers: the states ascend or descend.
use wooridb.Base.{
  Bool, true, false, Option, none, some, List, Text, text_key, ltb, arith, ◌≡◌, refl, ◌⊎◌, inl, inr,
}
use wooridb.Base.Int.{ℤ, pos, negsuc, compare_ℤ}
use wooridb.Base.Map.{get}
use wooridb.Base.Sorting.{AllFit, Ascends, Ascends-agree, AllFit-sort_by, sort_by-Ascends}
use wooridb.Wql.Types.{Types, Entity, Uuid, Float64, integer, partial_cmp}
use wooridb.Wql.Ast.{Order, asc, desc}
use wooridb.Query.Ordering.{option_cmp, is_less, goes_before, sort_states}

-- An integer, or no value at all.
abbrev pub is_integer : Option Types → Bool
is_integer none = true
is_integer (some (integer i)) = true
is_integer (some _) = false

pub integer-cases :
    (o : Option Types) → is_integer o ≡ true → (o ≡ none) ⊎ ((i : ℤ) × (o ≡ some (integer i)))
integer-cases none h = inl refl
integer-cases (some (integer i)) h = inr (i, refl)
integer-cases (some _) h = ground arith

compare_ℤ-asymmetric :
    (i j : ℤ) → is_less (some (compare_ℤ i j)) ≡ true → is_less (some (compare_ℤ j i)) ≡ false
unfolding compare_ℤ
compare_ℤ-asymmetric (pos a) (pos b) h = ground arith
compare_ℤ-asymmetric (pos a) (negsuc b) h = ground arith
compare_ℤ-asymmetric (negsuc a) (pos b) h = ground arith
compare_ℤ-asymmetric (negsuc a) (negsuc b) h = ground arith

compare_ℤ-transitive :
    (i j k : ℤ)
    → is_less (some (compare_ℤ j i)) ≡ false
    → is_less (some (compare_ℤ k j)) ≡ false
    → is_less (some (compare_ℤ k i)) ≡ false
unfolding compare_ℤ
compare_ℤ-transitive (pos a) (pos b) (pos c) h g = ground arith
compare_ℤ-transitive (pos a) (pos b) (negsuc c) h g = ground arith
compare_ℤ-transitive (pos a) (negsuc b) (pos c) h g = ground arith
compare_ℤ-transitive (pos a) (negsuc b) (negsuc c) h g = ground arith
compare_ℤ-transitive (negsuc a) (pos b) (pos c) h g = ground arith
compare_ℤ-transitive (negsuc a) (pos b) (negsuc c) h g = ground arith
compare_ℤ-transitive (negsuc a) (negsuc b) (pos c) h g = ground arith
compare_ℤ-transitive (negsuc a) (negsuc b) (negsuc c) h g = ground arith

module _ (f : Float64) where
  before : Option Types → Option Types → Bool
  unfolding option_cmp
  before a b = is_less (option_cmp f a b)

  before-asymmetric :
      (a b : Option Types)
      → is_integer a ≡ true
      → is_integer b ≡ true
      → before a b ≡ true
      → before b a ≡ false
  unfolding before option_cmp partial_cmp
  before-asymmetric a b fa fb = elim (integer-cases a fa) [
    | inl p ↦ elim (integer-cases b fb) [
      | inl q ↦ rw (p, q) (λ h. ground arith)
      | inr (j, q) ↦ rw (p, q) (λ h. refl)
    ]
    | inr (i, p) ↦ elim (integer-cases b fb) [
      | inl q ↦ rw (p, q) (λ h. ground arith)
      | inr (j, q) ↦ rw (p, q) (compare_ℤ-asymmetric i j)
    ]
  ]

  before-transitive :
      (a b c : Option Types)
      → is_integer a ≡ true
      → is_integer b ≡ true
      → is_integer c ≡ true
      → before b a ≡ false
      → before c b ≡ false
      → before c a ≡ false
  unfolding before option_cmp partial_cmp
  before-transitive a b c fa fb fc = elim (integer-cases a fa) [
    | inl p ↦ elim (integer-cases c fc) [
      | inl r ↦ rw (p, r) (λ h g. refl)
      | inr (k, r) ↦ rw (p, r) (λ h g. refl)
    ]
    | inr (i, p) ↦ elim (integer-cases b fb) [
      | inl q ↦ rw (p, q) (λ h g. ground arith)
      | inr (j, q) ↦ elim (integer-cases c fc) [
        | inl r ↦ rw (p, q, r) (λ h g. ground arith)
        | inr (k, r) ↦ rw (p, q, r) (compare_ℤ-transitive i j k)
      ]
    ]
  ]

-- All values of the key are integers or missing.
abbrev pub AreIntegers : Text → List (Uuid × Entity) → Type 0
AreIntegers k = AllFit (λ p. is_integer (get k p.1))

-- An integer below another.
abbrev pub below_ℤ : ℤ → ℤ → Bool
below_ℤ (pos a) (pos b) = ltb a b
below_ℤ (pos a) (negsuc b) = false
below_ℤ (negsuc a) (pos b) = true
below_ℤ (negsuc a) (negsuc b) = ltb b a

-- A missing value is below every value.
abbrev pub below : Option Types → Option Types → Bool
below none none = false
below none (some b) = true
below (some (integer i)) (some (integer j)) = below_ℤ i j
below _ _ = false

-- :asc puts the smaller value first, :desc the greater.
abbrev pub goes_first : Text → Order → Uuid × Entity → Uuid × Entity → Bool
goes_first k asc a b = below (get k a.1) (get k b.1)
goes_first k desc a b = below (get k b.1) (get k a.1)

below_ℤ-compare : (i j : ℤ) → below_ℤ i j ≡ is_less (some (compare_ℤ i j))
unfolding compare_ℤ
below_ℤ-compare (pos a) (pos b) = ground arith
below_ℤ-compare (pos a) (negsuc b) = refl
below_ℤ-compare (negsuc a) (pos b) = refl
below_ℤ-compare (negsuc a) (negsuc b) = ground arith

below-before :
    (f : Float64) (a b : Option Types)
    → is_integer a ≡ true
    → is_integer b ≡ true
    → below a b ≡ before f a b
unfolding before option_cmp partial_cmp
below-before f a b fa fb = elim (integer-cases a fa) [
  | inl p ↦ elim (integer-cases b fb) [ inl q ↦ rw (p, q) refl | inr (j, q) ↦ rw (p, q) refl ]
  | inr (i, p) ↦ elim (integer-cases b fb) [
    | inl q ↦ rw (p, q) refl
    | inr (j, q) ↦ rw (p, q) (below_ℤ-compare i j)
  ]
]

goes_before-Ascends :
    (f : Float64) (k : Text) (ord : Order) (states : List (Uuid × Entity))
    → AreIntegers k states
    → Ascends (goes_before f k ord) (sort_states f k ord states)
unfolding sort_states goes_before before
goes_before-Ascends f k asc =
    sort_by-Ascends (goes_before f k asc) (λ p. is_integer (get k p.1))
      (λ x y. before-asymmetric f (get k x.1) (get k y.1))
      (λ x y z. before-transitive f (get k x.1) (get k y.1) (get k z.1))
goes_before-Ascends f k desc =
    sort_by-Ascends (goes_before f k desc) (λ p. is_integer (get k p.1))
      (λ x y fx fy. before-asymmetric f (get k y.1) (get k x.1) fy fx)
      (λ x y z fx fy fz p q. before-transitive f (get k z.1) (get k y.1) (get k x.1) fz fy fx q p)

goes_before-fits :
    (f : Float64) (k : Text) (ord : Order) (states : List (Uuid × Entity))
    → AreIntegers k states
    → AreIntegers k (sort_states f k ord states)
unfolding sort_states goes_before before
goes_before-fits f k asc =
    AllFit-sort_by (goes_before f k asc) (λ p. is_integer (get k p.1))
      (λ x y. before-asymmetric f (get k x.1) (get k y.1))
      (λ x y z. before-transitive f (get k x.1) (get k y.1) (get k z.1))
goes_before-fits f k desc =
    AllFit-sort_by (goes_before f k desc) (λ p. is_integer (get k p.1))
      (λ x y fx fy. before-asymmetric f (get k y.1) (get k x.1) fy fx)
      (λ x y z fx fy fz p q. before-transitive f (get k z.1) (get k y.1) (get k x.1) fz fy fx q p)

goes_first-goes_before :
    (f : Float64) (k : Text) (ord : Order) (x y : Uuid × Entity)
    → is_integer (get k x.1) ≡ true
    → is_integer (get k y.1) ≡ true
    → goes_first k ord x y ≡ goes_before f k ord x y
unfolding goes_before before
goes_first-goes_before f k asc x y fx fy = below-before f (get k x.1) (get k y.1) fx fy
goes_first-goes_before f k desc x y fx fy = below-before f (get k y.1) (get k x.1) fy fx

pub sort_states-Ascends :
    (f : Float64) (k : Text) (ord : Order) (states : List (Uuid × Entity))
    → AreIntegers k states
    → Ascends (goes_first k ord) (sort_states f k ord states)
sort_states-Ascends f k ord states a =
    Ascends-agree (goes_before f k ord) (goes_first k ord) (λ p. is_integer (get k p.1))
      (goes_first-goes_before f k ord) (sort_states f k ord states)
      (goes_before-fits f k ord states a) (goes_before-Ascends f k ord states a)
