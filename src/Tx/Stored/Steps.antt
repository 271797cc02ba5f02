-- ===== src/Tx/Stored/Steps.antt =====
-- The steps before the block that writes, where they succeed.
use wooridb.Base.{◌≡◌, ap, some, Option, Option-cases, inl, inr, Text, text_key, nat_key, arith}
use wooridb.Base.Map.{Map, get, contains_key, is_some}
use wooridb.Model.{StateInfo}
use wooridb.Host.{Host}
use wooridb.Wql.Types.{Entity, Uuid, DateTime}
use wooridb.Server.{World, ok, pure, gets, or_fail, unwrap, ◌>>=◌}
use wooridb.Actors.Uniques.{check_for_unique_keys, register_in}
use wooridb.Tx.Steps.{tx_time, lock_local, require_entity, get_entry, fetch_entry}
use wooridb.Tx.Rules.{same_store, SameStore, Keeps, Holds-trans}
use wooridb.Tx.Rules.Calm.{calm_rules}

pub tx_time-ok :
    (content : Entity) (w u : World) (d : DateTime)
    → tx_time content w ≡ (ok d, u)
    → (d ≡ w.now) × (u ≡ w)
unfolding tx_time
tx_time-ok content w u d e = (ground arith, ground arith)

pub require_entity-ok :
    (entity : Text) (w u : World)
    → require_entity entity w ≡ (ok tt, u)
    → (ids : Map Uuid StateInfo) × (get entity w.local ≡ some ids)
unfolding require_entity contains_key is_some ◌>>=◌ lock_local
require_entity-ok entity w u e = elim (Option-cases (get entity w.local)) [
  | inl n ↦ ground arith
  | inr o ↦ o
]

pub gets-ok {ℓ} :
    {A : Type ℓ} (f : World → A) (w u : World) (a : A) → gets f w ≡ (ok a, u) → (a ≡ f w) × (u ≡ w)
unfolding gets
gets-ok f w u a e = (ground arith, ground arith)

pub or_fail-ok {ℓ} :
    {A : Type ℓ} (x : _) (o : Option A) (w u : World) (a : A)
    → or_fail x o w ≡ (ok a, u)
    → (o ≡ some a) × (u ≡ w)
unfolding or_fail
or_fail-ok x o w u a e = (ground arith, ground arith)

pub fetch_entry-ok :
    (entity : Text) (id : Uuid) (w u : World) (info : StateInfo)
    → fetch_entry entity id w ≡ (ok info, u)
    → (get_entry entity id w.local ≡ some info) × (u ≡ w)
unfolding fetch_entry
fetch_entry-ok entity id w u info e = (ground arith, ground arith)

pub pure-ok {ℓ} : {A : Type ℓ} (a b : A) (w u : World) → pure a w ≡ (ok b, u) → (a ≡ b) × (w ≡ u)
unfolding pure
pure-ok a b w u e = (ground arith, ap (λ q. q.1) e)

-- `SameStore` along two steps.
pub after : {u v w : World} → SameStore u v → SameStore v w → SameStore u w
after a b = Holds-trans same_store _ _ _ a b

pub unwrap-ok {ℓ} :
    {A : Type ℓ} (o : Option A) (w u : World) (a : A)
    → unwrap o w ≡ (ok a, u)
    → (o ≡ some a) × (u ≡ w)
unfolding unwrap
unwrap-ok o w u a e = (ground arith, ground arith)

module _ (h : Host) where
  register_in-same :
      (entity : Text) (content : Entity) → Keeps same_store (register_in h entity content)
  unfolding register_in
  register_in-same entity content = record {
    at = λ w. record {
      logs = ground arith;
      bytes_counter = ground arith;
      local = ground arith;
      now = ground arith;
      fresh = ground arith;
    };
  }

  pub check_for_unique_keys-same :
      (entity : Text) (content : Entity) → Keeps same_store (check_for_unique_keys h entity content)
  unfolding check_for_unique_keys
  check_for_unique_keys-same entity content = search (calm_rules, register_in-same) depth 12
