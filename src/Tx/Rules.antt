-- ===== src/Tx/Rules.antt =====
-- Relations between the states before and after a step that every step of woori-db/src/controllers/tx.rs
-- keeps, whatever its outcome, and a rule for each way to build an action.
pub mod Calm
pub mod Locks
pub mod Growing
pub mod Steps
use wooridb.Base.{
  Bool-cases, inl, inr, arith, List, Bool, true, false, ◌≡◌, refl, sym, ap, ◌∙◌, some, Option, none,
  Text, text_key, ◌++◌, ℕ, [], if◌then◌else◌,
}
use mathlib.Core.List.{append-nil, append_assoc}
use wooridb.Base.Map.{Map, get}
use wooridb.Actors.Uniques.Registering.{recorded}
use wooridb.Model.{Error, LocalContext}
use wooridb.Wql.Types.{DateTime, Uuid}
use wooridb.Server.{
  World, Outcome, ok, err, panic, Act, pure, fail, unwrap, or_fail, gets, continue, sent, send,
  ◌>>=◌,
}
use wooridb.Server.Rules.{continue-eq-ok}
use mathlib.Core.Path.{subst}

-- A log keeps what it holds and gets more at its end; the keys under encryption stay, and so do
-- the values of unique keys.
pub record Extends (w v : World) : Type 0 where
  pub logs :
      (file t : Text)
      → get file w.disk.logs ≡ some t
      → (s : Text) × (get file v.disk.logs ≡ some (t ++ s))
  pub encryption :
      (entity : Text) (keys : List Text)
      → get entity w.encryption ≡ some keys
      → get entity v.encryption ≡ some keys
  pub uniqueness :
      (entity : Text) (u : Map Text (List Text)) (k x : Text)
      → get entity w.uniqueness ≡ some u
      → recorded k x u ≡ true
      → (u' : Map Text (List Text)) × (get entity v.uniqueness ≡ some u') × (recorded k x u' ≡ true)

-- The logs, the counter, the local data, the clock and the next id are the same.
pub record SameStore (w v : World) : Type 0 where
  pub logs : v.disk.logs ≡ w.disk.logs
  pub bytes_counter : v.bytes_counter ≡ w.bytes_counter
  pub local : v.local ≡ w.local
  pub now : v.now ≡ w.now
  pub fresh : v.fresh ≡ w.fresh

pub data Rel : Type 0 where
  extends same_store : Rel

abbrev pub Holds : Rel → World → World → Type 0
Holds extends = Extends
Holds same_store = SameStore

pub Holds-refl : (r : Rel) (w : World) → Holds r w w
Holds-refl extends w = record {
  logs = λ file t e. ([], e ∙ ap some (sym (append-nil t)));
  encryption = λ entity keys e. e;
  uniqueness = λ entity u k x g e. (u, g, e);
}
Holds-refl same_store w = record {
  logs = refl;
  bytes_counter = refl;
  local = refl;
  now = refl;
  fresh = refl;
}

pub Holds-trans : (r : Rel) (u v w : World) → Holds r u v → Holds r v w → Holds r u w
Holds-trans extends u v w a b = record {
  logs = λ file t e.
      let (s, e') = a.logs file t e in
      let (s', e'') = b.logs file (t ++ s) e' in (s ++ s', e'' ∙ ap some (append_assoc t s s'));
  encryption = λ entity keys e. b.encryption entity keys (a.encryption entity keys e);
  uniqueness = λ entity u k x g e.
      let (u', g', e') = a.uniqueness entity u k x g e in b.uniqueness entity u' k x g' e';
}
Holds-trans same_store u v w a b = record {
  logs = b.logs ∙ a.logs;
  bytes_counter = b.bytes_counter ∙ a.bytes_counter;
  local = b.local ∙ a.local;
  now = b.now ∙ a.now;
  fresh = b.fresh ∙ a.fresh;
}

-- Whatever the outcome of `m`.
pub record Keeps {ℓ} (r : Rel) {A : Type ℓ} (m : Act A) : Type ℓ where
  pub at : (w : World) → Holds r w (m w).1

module _ {ℓ} {A : Type ℓ} {r : Rel} where
  pub Keeps-pure : (a : A) → Keeps r (pure a)
  unfolding pure
  Keeps-pure a = record { at = Holds-refl r }

  pub Keeps-fail : (e : Error) → Keeps r (fail {A = A} e)
  unfolding fail
  Keeps-fail e = record { at = Holds-refl r }

  pub Keeps-gets : (f : World → A) → Keeps r (gets f)
  unfolding gets
  Keeps-gets f = record { at = Holds-refl r }

  pub Keeps-unwrap : (o : Option A) → Keeps r (unwrap o)
  unfolding unwrap
  Keeps-unwrap none = record { at = Holds-refl r }
  Keeps-unwrap (some a) = record { at = Holds-refl r }

  pub Keeps-or_fail : (e : Error) (o : Option A) → Keeps r (or_fail e o)
  unfolding or_fail
  Keeps-or_fail e none = record { at = Holds-refl r }
  Keeps-or_fail e (some a) = record { at = Holds-refl r }

  pub Keeps-if : (b : Bool) (m n : Act A) → Keeps r m → Keeps r n → Keeps r (if b then m else n)
  Keeps-if true m n km kn = km
  Keeps-if false m n km kn = kn

Holds-stopped :
    (r : Rel) (w v : World) → Holds r w v → Holds r w (record v { executor_stopped = true })
Holds-stopped extends w v x = record {
  logs = x.logs;
  encryption = x.encryption;
  uniqueness = x.uniqueness;
}
Holds-stopped same_store w v x = record {
  logs = x.logs;
  bytes_counter = x.bytes_counter;
  local = x.local;
  now = x.now;
  fresh = x.fresh;
}

module _ {ℓ} {A : Type ℓ} where
  Holds-sent :
      (r : Rel) (b : Bool) (o : Outcome A) (w v : World) → Holds r w v → Holds r w (sent b o w v).1
  Holds-sent r true o w v h = Holds-refl r w
  Holds-sent r false (ok a) w v h = h
  Holds-sent r false (err e) w v h = h
  Holds-sent r false panic w v h = Holds-stopped r w v h

  pub Keeps-send : {r : Rel} (m : Act A) → Keeps r m → Keeps r (send m)
  unfolding send
  Keeps-send {r = r} m k = record {
    at = λ w. Holds-sent r w.executor_stopped (m w).0 w (m w).1 (k.at w);
  }

  sent-ok :
      (b : Bool) (o : Outcome A) (w u v : World) (a : A)
      → sent b o w u ≡ (ok a, v)
      → ◌≡◌ {A = Outcome A × World} (o, u) (ok a, v)
  sent-ok true o w u v a e = absurd (ground arith)
  sent-ok false (ok b) w u v a e = e
  sent-ok false (err x) w u v a e = absurd (ground arith)
  sent-ok false panic w u v a e = absurd (ground arith)

  -- A message that is answered well was handled well.
  pub send-ok : (m : Act A) {w v : World} {a : A} → send m w ≡ (ok a, v) → m w ≡ (ok a, v)
  unfolding send
  send-ok m {w = w} {v = v} {a = a} e = sent-ok w.executor_stopped (m w).0 w (m w).1 v a e

module _ {ℓ} {A B : Type ℓ} {r : Rel} where
  Holds-continue :
      (o : Outcome A) (f : A → Act B) (w v : World)
      → Holds r w v
      → ((a : A) → Keeps r (f a))
      → Holds r w (continue o f v).1
  Holds-continue (ok a) f w v h k = Holds-trans r w v (f a v).1 h ((k a).at v)
  Holds-continue (err e) f w v h k = h
  Holds-continue panic f w v h k = h

  pub Keeps-bind :
      (m : Act A) (f : A → Act B) → Keeps r m → ((a : A) → Keeps r (f a)) → Keeps r (m >>= f)
  unfolding ◌>>=◌
  Keeps-bind m f km kf = record { at = λ w. Holds-continue (m w).0 f w (m w).1 (km.at w) kf }

pub ruleset keeps_rules = (
  Keeps-pure, Keeps-fail, Keeps-gets, Keeps-unwrap, Keeps-or_fail, Keeps-if, Keeps-bind, Keeps-send,
)

-- A step that changes none of what the relations speak of.
pub Keeps-same {ℓ} :
    {r : Rel} {A : Type ℓ} (m : Act A)
    → ((w : World)
        → ((m w).1.disk.logs ≡ w.disk.logs)
          × ((m w).1.encryption ≡ w.encryption)
          × ((m w).1.uniqueness ≡ w.uniqueness)
          × ((m w).1.bytes_counter ≡ w.bytes_counter)
          × ((m w).1.local ≡ w.local)
          × ((m w).1.now ≡ w.now)
          × ((m w).1.fresh ≡ w.fresh))
    → Keeps r m
Keeps-same {r = extends} m h = record {
  at = λ w.
      let (logs, encryption, uniqueness, _, _, _, _) = h w in
      record {
        logs = λ file t e. ([], ap (get file) logs ∙ e ∙ ap some (sym (append-nil t)));
        encryption = λ entity keys e. ap (get entity) encryption ∙ e;
        uniqueness = λ entity u k x g e. (u, ap (get entity) uniqueness ∙ g, e);
      };
}
Keeps-same {r = same_store} m h = record {
  at = λ w.
      let (logs, _, _, counter, local, now, fresh) = h w in
      record { logs = logs; bytes_counter = counter; local = local; now = now; fresh = fresh };
}

module _ {ℓ κ ι} {A : Type ℓ} {B : Type κ} {C : Type ι} where
  -- A step that ends well, before others that do: what follows from both may be used.
  pub bind-ok :
      (m : Act A) (f : A → Act B) {w v : World} {b : B}
      → (m >>= f) w ≡ (ok b, v)
      → ((a : A) (u : World) → m w ≡ (ok a, u) → f a u ≡ (ok b, v) → C)
      → C
  unfolding ◌>>=◌
  bind-ok m f {w = w} e c =
      let (a, r, k) = continue-eq-ok (m w).0 f e in c a (m w).1 (ap (λ o. (o, (m w).1)) r) k

  -- The same for a step that leaves the store alone.
  pub bind-ok_same :
      {m : Act A} {f : A → Act B} {w v : World} {b : B}
      → Keeps same_store m
      → (m >>= f) w ≡ (ok b, v)
      → ((a : A) (u : World) → m w ≡ (ok a, u) → SameStore w u → f a u ≡ (ok b, v) → C)
      → C
  bind-ok_same {m = m} {f = f} {w = w} k e c =
      bind-ok m f e (λ a u r. c a u r (subst (SameStore w) (ap (λ p. p.1) r) (k.at w)))

pub ok_same {ℓ} :
    {A : Type ℓ} {m : Act A} {w v : World} {a : A}
    → Keeps same_store m
    → m w ≡ (ok a, v)
    → SameStore w v
ok_same {w = w} k e = subst (SameStore w) (ap (λ p. p.1) e) (k.at w)
