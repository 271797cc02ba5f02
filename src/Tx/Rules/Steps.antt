-- ===== src/Tx/Rules/Steps.antt =====
-- The steps that move the counter or change the local data, and the rules of all steps.
use wooridb.Base.{Bool, refl, Text, text_key, nat_key, ℕ, arith}
use wooridb.Model.{DataRegister}
use wooridb.Host.{Host}
use wooridb.Wql.Types.{Entity, Uuid}
use wooridb.Tx.Steps.{
  restart_if_empty, fetch_add, insert_entry, replace_entry, advance_counter, put_local,
}
use wooridb.Tx.Rules.{extends, Keeps}
use wooridb.Tx.Rules.Calm.{offset_counter-Keeps, save_uniqueness-Keeps, calm_rules}
use wooridb.Tx.Rules.Growing.{
  Keeps-extends, write_to_log-Keeps, check_for_unique_keys-Keeps, create_with_unique_keys-Keeps,
  create_with_encryption-Keeps,
}

pub put_local-Keeps : (m : _) → Keeps extends (put_local m)
unfolding put_local
put_local-Keeps m = Keeps-extends _ (λ w. (refl, refl, refl))

pub restart_if_empty-Keeps : (b : Bool) (n : ℕ) → Keeps extends (restart_if_empty b n)
unfolding restart_if_empty
restart_if_empty-Keeps b n = Keeps-extends _ (λ w. ground arith)

pub fetch_add-Keeps : (n : ℕ) → Keeps extends (fetch_add n)
unfolding fetch_add
fetch_add-Keeps n = Keeps-extends _ (λ w. (refl, refl, refl))

module _ (h : Host) where
  pub insert_entry-Keeps :
      (entity : Text) (id : Uuid) (reg : DataRegister) (state : Entity)
      → Keeps extends (insert_entry h entity id reg state)
  unfolding insert_entry
  insert_entry-Keeps entity id reg state = Keeps-extends _ (λ w. ground arith)

  pub replace_entry-Keeps :
      (entity : Text) (id : Uuid) (reg : DataRegister) (state : Entity)
      → Keeps extends (replace_entry h entity id reg state)
  unfolding replace_entry
  replace_entry-Keeps entity id reg state = Keeps-extends _ (λ w. ground arith)

  pub advance_counter-Keeps : (n : ℕ) → Keeps extends (advance_counter h n)
  unfolding advance_counter
  advance_counter-Keeps n = search (calm_rules, fetch_add-Keeps)

pub ruleset growing_rules = (
  calm_rules, write_to_log-Keeps, check_for_unique_keys-Keeps, create_with_unique_keys-Keeps,
  create_with_encryption-Keeps, put_local-Keeps, restart_if_empty-Keeps, fetch_add-Keeps,
  insert_entry-Keeps, replace_entry-Keeps, advance_counter-Keeps,
)
