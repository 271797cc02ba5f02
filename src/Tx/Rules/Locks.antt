-- ===== src/Tx/Rules/Locks.antt =====
-- Steps that take a lock, and tests.
use wooridb.Base.{Bool, true, false, ◌≡◌, refl, text_key, nat_key, if◌then◌else◌}
use wooridb.Model.{UniquenessContext, EncryptContext, lock_data}
use wooridb.Server.{World, Outcome, ok, err, Act, continue, ◌>>=◌}
use wooridb.Actors.Encrypts.{lock_encryption}
use wooridb.Actors.Uniques.{lock_uniqueness}
use wooridb.Tx.Rules.{Rel, Holds, Keeps, Holds-refl}

module _ {r : Rel} where
  pub Keeps-lock_uniqueness :
      (f : UniquenessContext → Act (Unit {0}))
      → ((w : World) → Holds r w (f w.uniqueness w).1)
      → Keeps r (lock_uniqueness >>= f)
  unfolding lock_uniqueness ◌>>=◌
  Keeps-lock_uniqueness f k = record { at = λ w. at w w.uniqueness_poisoned }
    where
      at :
          (w : World) (b : Bool)
          → Holds r w
              (continue
                (if◌then◌else◌ {A = Outcome UniquenessContext × World} b
                  (err lock_data, w)
                  (ok w.uniqueness, w)).0
                f
                (if◌then◌else◌ {A = Outcome UniquenessContext × World} b
                  (err lock_data, w)
                  (ok w.uniqueness, w)).1).1
      at w true = Holds-refl r w
      at w false = k w

  pub Keeps-lock_encryption :
      (f : EncryptContext → Act (Unit {0}))
      → ((w : World) → Holds r w (f w.encryption w).1)
      → Keeps r (lock_encryption >>= f)
  unfolding lock_encryption ◌>>=◌
  Keeps-lock_encryption f k = record { at = λ w. at w w.encryption_poisoned }
    where
      at :
          (w : World) (b : Bool)
          → Holds r w
              (continue
                (if◌then◌else◌ {A = Outcome EncryptContext × World} b
                  (err lock_data, w)
                  (ok w.encryption, w)).0
                f
                (if◌then◌else◌ {A = Outcome EncryptContext × World} b
                  (err lock_data, w)
                  (ok w.encryption, w)).1).1
      at w true = Holds-refl r w
      at w false = k w

pub Holds-if :
    (r : Rel) (w : World) (b : Bool) (m n : Act (Unit {0}))
    → Holds r w (m w).1
    → (b ≡ false → Holds r w (n w).1)
    → Holds r w ((if b then m else n) w).1
Holds-if r w true m n y f = y
Holds-if r w false m n y f = f refl
