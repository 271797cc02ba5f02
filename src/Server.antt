-- ===== src/Server.antt =====
-- The state that requests share, and the actions on it: locks, files, panics.
pub mod Files
pub mod Rules
use wooridb.Base.{
  ℕ, ◌+◌, zero, suc, Bool, true, false, not, Option, none, some, Text, ◌++◌, ◌≡◌, if◌then◌else◌,
}
use wooridb.Wql.Types.{DateTime, Uuid}
use wooridb.Model.{LocalContext, UniquenessContext, EncryptContext, Error, lock_data, actix_mailbox}
use Files.{Disk}

-- `io` says how each call on a file ends. `now` and `fresh` are what the clock and
-- Uuid::new_v4 give during the request. A mutex is poisoned by a panic of its holder, and a panic
-- of a message's handler stops the actor Executor, which nothing starts again.
pub record World : Type 0 where
  pub local : LocalContext
  pub local_poisoned : Bool
  pub uniqueness : UniquenessContext
  pub uniqueness_poisoned : Bool
  pub encryption : EncryptContext
  pub encryption_poisoned : Bool
  pub executor_stopped : Bool
  pub bytes_counter : ℕ
  pub disk : Disk
  pub now : DateTime
  pub fresh : Uuid

-- How a handler ends: `?` returns an error, `unwrap` may panic.
pub data Outcome {ℓ} (A : Type ℓ) : Type ℓ where
  ok : A → Outcome A
  err : Error → Outcome A
  panic : Outcome A

abbrev pub Act {ℓ} : Type ℓ → Type ℓ
Act A = World → Outcome A × World

module _ {ℓ} {A : Type ℓ} where
  unfoldable pub pure : A → Act A
  pure a w = (ok a, w)

  unfoldable pub fail : Error → Act A
  fail e w = (err e, w)

  -- `unwrap` and `expect`, with no lock held
  unfoldable pub unwrap : Option A → Act A
  unwrap none w = (panic, w)
  unwrap (some a) w = (ok a, w)

  unfoldable pub or_fail : Error → Option A → Act A
  or_fail e none w = (err e, w)
  or_fail e (some a) w = (ok a, w)

  unfoldable pub gets : (World → A) → Act A
  gets f w = (ok (f w), w)

  abbrev pub answered : Outcome A → World → Outcome A × World
  answered panic w = (err actix_mailbox, record w { executor_stopped = true })
  answered o w = (o, w)

  abbrev pub sent : Bool → Outcome A → World → World → Outcome A × World
  sent true o w v = (err actix_mailbox, w)
  sent false o w v = answered o v

  -- `actor.send(message).await??`, with what the message's handler does
  unfoldable pub send : Act A → Act A
  send m w = sent w.executor_stopped (m w).0 w (m w).1

module _ {ℓ κ} {A : Type ℓ} {B : Type κ} where
  abbrev pub continue : Outcome A → (A → Act B) → World → Outcome B × World
  continue (ok a) f w = f a w
  continue (err e) f w = (err e, w)
  continue panic f w = (panic, w)

  infixl 5 ◌>>=◌ ◌>>◌
  -- opening this opens the actions above too
  unfoldable pub ◌>>=◌ : Act A → (A → Act B) → Act B
  unfolding pure fail unwrap or_fail gets send
  ◌>>=◌ m f w = let (r, w') = m w in continue r f w'

  abbrev pub ◌>>◌ : Act A → Act B → Act B
  m >> k = m >>= λ _. k
