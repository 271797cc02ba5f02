-- ===== src/Base/Sorted.antt =====
-- BTreeMap keyed by numbers: association lists in key order, so that iteration and skip/take
-- follow the keys.
use wooridb.Base.Tests.{◌==◌, if◌then◌else◌, nat_key, ltb}
use wooridb.Base.Map.{Map, get}
use Prim.Native.Nat.{ℕ, ◌<◌}
use mathlib.Core.Path.{◌≡◌, refl}
use mathlib.Core.Option.{some}
use mathlib.Core.List.{[], ◌∷◌}
use native.Mathlib.Omega.{arith}

module _ {ℓ} {V : Type ℓ} where
  unfoldable pub insert : ℕ → V → Map ℕ V → Map ℕ V
  insert k v [] = (k, v) ∷ []
  insert k v ((j, w) ∷ m) =
      let rest = insert k v m in
      if k == j then (k, v) ∷ m else if ltb k j then (k, v) ∷ (j, w) ∷ m else (j, w) ∷ rest

  pub get-insert :
      (k j : ℕ) (v : V) (m : Map ℕ V) → get j (insert k v m) ≡ (if k == j then some v else get j m)
  unfolding get insert
  get-insert k j v [] = refl
  get-insert k j v ((i, w) ∷ m) = ground (arith, get-insert k j v m)

  abbrev pub Below : ℕ → Map ℕ V → Type 0
  Below k [] = Unit
  Below k ((j, v) ∷ m) = (k < j) × Below j m

  -- Keys strictly ascend.
  abbrev pub IsSorted : Map ℕ V → Type 0
  IsSorted [] = Unit
  IsSorted ((j, v) ∷ m) = Below j m

  insert-Below : (b k : ℕ) (v : V) (m : Map ℕ V) → b < k → Below b m → Below b (insert k v m)
  unfolding insert
  insert-Below b k v [] h s = (h, tt)
  insert-Below b k v ((j, w) ∷ m) h s = ground (arith, insert-Below j k v m)

  pub insert-IsSorted : (k : ℕ) (v : V) (m : Map ℕ V) → IsSorted m → IsSorted (insert k v m)
  unfolding insert
  insert-IsSorted k v [] s = tt
  insert-IsSorted k v ((j, w) ∷ m) s = ground (arith, insert-Below j k v m)
