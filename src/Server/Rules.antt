-- ===== src/Server/Rules.antt =====
-- What a successful chain of steps says of its parts.
use wooridb.Base.{◌≡◌, refl}
use wooridb.Server.{World, Outcome, ok, err, panic, Act, continue}

module _ {ℓ κ} {A : Type ℓ} {B : Type κ} where
  pub continue-eq-ok :
      (r : Outcome A) (f : A → Act B) {w w' : World} {b : B}
      → continue r f w ≡ (ok b, w')
      → (a : A) × (r ≡ ok a) × (f a w ≡ (ok b, w'))
  continue-eq-ok (ok a) f e = (a, refl, e)
  continue-eq-ok (err x) f e = cc
  continue-eq-ok panic f e = cc
