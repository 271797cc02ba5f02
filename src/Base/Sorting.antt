-- ===== src/Base/Sorting.antt =====
-- Rust's stable `sort_by`, as the insertion sort that it runs on short slices. `less x y` says
-- that the comparison of x and y is `Less`. For an order the result does not depend on the
-- algorithm; for tests that are none the standard library leaves the order open.
use mathlib.Core.Path.{◌≡◌, ◌∙◌}
use mathlib.Core.Logic.{inl, inr}
use mathlib.Core.Bool.{Bool, true, false}
use mathlib.Core.List.{List, [], ◌∷◌}
use mathlib.Core.List.{Perm}
use mathlib.Core.List.Perm
use wooridb.Base.Tests.{if◌then◌else◌, Bool-cases}

module _ {ℓ} {A : Type ℓ} where
  abbrev pub AllFit : (A → Bool) → List A → Type 0
  AllFit fits [] = Unit
  AllFit fits (x ∷ xs) = (fits x ≡ true) × AllFit fits xs

module _ {ℓ} {A : Type ℓ} (less : A → A → Bool) where
  unfoldable pub insert_sorted : A → List A → List A
  insert_sorted x [] = x ∷ []
  insert_sorted x (y ∷ ys) =
      let rest = insert_sorted x ys in if less y x then y ∷ rest else x ∷ y ∷ ys

  unfoldable pub sort_by : List A → List A
  unfolding insert_sorted
  sort_by [] = []
  sort_by (x ∷ xs) = insert_sorted x (sort_by xs)

  insert_sorted-Perm : (x : A) (ys : List A) → Perm (insert_sorted x ys) (x ∷ ys)
  unfolding insert_sorted
  insert_sorted-Perm x [] = Perm.rfl
  insert_sorted-Perm x (y ∷ ys) = elim (Bool-cases (less y x)) [
    | inl p ↦ rw p (Perm.trans (Perm.cons y (insert_sorted-Perm x ys)) (Perm.swap x y ys))
    | inr p ↦ rw p Perm.rfl
  ]

  pub sort_by-Perm : (xs : List A) → Perm (sort_by xs) xs
  unfolding sort_by
  sort_by-Perm [] = Perm.rfl
  sort_by-Perm (x ∷ xs) =
      Perm.trans (insert_sorted-Perm x (sort_by xs)) (Perm.cons x (sort_by-Perm xs))

  -- Nothing in the list goes before x.
  abbrev pub NoneBefore : A → List A → Type 0
  NoneBefore x [] = Unit
  NoneBefore x (y ∷ ys) = (less y x ≡ false) × NoneBefore x ys

  abbrev pub Ascends : List A → Type 0
  Ascends [] = Unit
  Ascends (x ∷ xs) = NoneBefore x xs × Ascends xs

  -- On the values for which `fits` holds, `less` is an order.
  module _ (fits : A → Bool)
      (asymmetric : (x y : A) → fits x ≡ true → fits y ≡ true → less x y ≡ true → less y x ≡ false)
      (transitive : (x y z : A)
        → fits x ≡ true
        → fits y ≡ true
        → fits z ≡ true
        → less y x ≡ false
        → less z y ≡ false
        → less z x ≡ false) where
    NoneBefore-insert_sorted :
        (x y : A) (ys : List A)
        → less y x ≡ false
        → NoneBefore x ys
        → NoneBefore x (insert_sorted y ys)
    unfolding insert_sorted
    NoneBefore-insert_sorted x y [] p n = (p, tt)
    NoneBefore-insert_sorted x y (z ∷ ys) p n = elim (Bool-cases (less z y)) [
      | inl q ↦ rw q (n.0, NoneBefore-insert_sorted x y ys p n.1)
      | inr q ↦ rw q (p, n)
    ]

    NoneBefore-trans :
        (x y : A) (ys : List A)
        → fits x ≡ true
        → fits y ≡ true
        → AllFit fits ys
        → less y x ≡ false
        → NoneBefore y ys
        → NoneBefore x ys
    NoneBefore-trans x y [] fx fy a p n = tt
    NoneBefore-trans x y (z ∷ ys) fx fy a p n =
        (transitive x y z fx fy a.0 p n.0, NoneBefore-trans x y ys fx fy a.1 p n.1)

    AllFit-insert_sorted :
        (x : A) (ys : List A) → fits x ≡ true → AllFit fits ys → AllFit fits (insert_sorted x ys)
    unfolding insert_sorted
    AllFit-insert_sorted x [] fx a = (fx, tt)
    AllFit-insert_sorted x (y ∷ ys) fx a = elim (Bool-cases (less y x)) [
      | inl p ↦ rw p (a.0, AllFit-insert_sorted x ys fx a.1)
      | inr p ↦ rw p (fx, a)
    ]

    insert_sorted-Ascends :
        (x : A) (ys : List A)
        → fits x ≡ true
        → AllFit fits ys
        → Ascends ys
        → Ascends (insert_sorted x ys)
    unfolding insert_sorted
    insert_sorted-Ascends x [] fx a s = (tt, tt)
    insert_sorted-Ascends x (y ∷ ys) fx a s = elim (Bool-cases (less y x)) [
      | inl p ↦ rw p (
        NoneBefore-insert_sorted y x ys (asymmetric y x a.0 fx p) s.0,
        insert_sorted-Ascends x ys fx a.1 s.1,
      )
      | inr p ↦ rw p ((p, NoneBefore-trans x y ys fx a.0 a.1 p s.0), s)
    ]

    pub AllFit-sort_by : (xs : List A) → AllFit fits xs → AllFit fits (sort_by xs)
    unfolding sort_by
    AllFit-sort_by [] a = tt
    AllFit-sort_by (x ∷ xs) a = AllFit-insert_sorted x (sort_by xs) a.0 (AllFit-sort_by xs a.1)

    pub sort_by-Ascends : (xs : List A) → AllFit fits xs → Ascends (sort_by xs)
    unfolding sort_by
    sort_by-Ascends [] a = tt
    sort_by-Ascends (x ∷ xs) a =
        insert_sorted-Ascends x (sort_by xs) a.0 (AllFit-sort_by xs a.1) (sort_by-Ascends xs a.1)

-- Two tests that agree on what fits ascend together.
module _ {ℓ} {A : Type ℓ} (less other : A → A → Bool) (fits : A → Bool)
    (agree : (x y : A) → fits x ≡ true → fits y ≡ true → other x y ≡ less x y) where
  NoneBefore-agree :
      (x : A) (ys : List A)
      → fits x ≡ true
      → AllFit fits ys
      → NoneBefore less x ys
      → NoneBefore other x ys
  NoneBefore-agree x [] fx a n = tt
  NoneBefore-agree x (y ∷ ys) fx a n = (agree y x a.0 fx ∙ n.0, NoneBefore-agree x ys fx a.1 n.1)

  pub Ascends-agree : (xs : List A) → AllFit fits xs → Ascends less xs → Ascends other xs
  Ascends-agree [] a s = tt
  Ascends-agree (x ∷ xs) a s = (NoneBefore-agree x xs a.0 a.1 s.0, Ascends-agree xs a.1 s.1)
