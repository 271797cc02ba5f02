-- ===== src/Query/History/Chain.antt =====
-- The loop of the history ends, and what it collects.
use wooridb.Base.{
  ℕ, zero, suc, ◌≤◌, none, some, List, [], ◌∷◌, Text, nat_key, length, arith, ◌≡◌, refl, ap, ◌∙◌,
  if◌then◌else◌, Bool-cases, inl, inr,
}
use wooridb.Base.Map.{Map}
use wooridb.Wql.Types.{Entity, DateTime}
use wooridb.Model.{DataRegister, EntityHistoryInfo}
use wooridb.Host.{Host}
use wooridb.Server.{World, ok, Act, pure, continue, ◌>>=◌}
use wooridb.Actors.Files.{read_log}
use wooridb.Query.History.{history, history_loop, next_event, add_event, stops}

-- The events from a line back to the insertion, newest first.
pub data Chain (h : Host) (w : World) : Text → List (DateTime × Entity) → Type 0 where
  inserted :
      (line : Text) (content : Entity) (date : DateTime)
      → history h line w ≡ (ok (content, date, none), w)
      → Chain h w line ((date, content) ∷ [])
  changed :
      (line previous : Text) (content : Entity) (date : DateTime) (r : DataRegister)
      (events : List (DateTime × Entity))
      → history h line w ≡ (ok (content, date, some r), w)
      → read_log h r w ≡ (ok previous, w)
      → Chain h w previous events
      → Chain h w line ((date, content) ∷ events)

-- The events up to the first, from the newest on, that is after the end, less those before the
-- start.
abbrev pub collected :
    EntityHistoryInfo → List (DateTime × Entity) → Map DateTime Entity → Map DateTime Entity
collected info [] btree = btree
collected info ((date, content) ∷ events) btree =
    if stops info date then btree else collected info events (add_event info date content btree)

module _ (h : Host) where
  bind-eq :
      {A B : Type 0} (m : Act A) (f : A → Act B) {w : World} {a : A}
      → m w ≡ (ok a, w)
      → (m >>= f) w ≡ f a w
  unfolding ◌>>=◌
  bind-eq m f e = ap (λ r. continue r.0 f r.1) e

  -- Along a chain of events the loop ends, given as many steps as there are events.
  pub history_loop-Chain :
      (w : World) (info : EntityHistoryInfo) (fuel : ℕ) (line : Text)
      (events : List (DateTime × Entity)) (btree : Map DateTime Entity)
      → Chain h w line events
      → length events ≤ fuel
      → history_loop h fuel info line btree w ≡ (ok (some (collected info events btree)), w)
  unfolding history_loop next_event pure
  history_loop-Chain w info zero line _ btree (Chain.inserted _ content date e) le =
      absurd (omega (arith, le))
  history_loop-Chain w info zero line _ btree (Chain.changed _ p content date r ev e g c) le =
      absurd (omega (arith, le))
  history_loop-Chain w info (suc fuel) line _ btree (Chain.inserted _ content date e) le =
      bind-eq (history h line) _ e
      ∙ elim (Bool-cases (stops info date)) [ inl p ↦ rw p refl | inr n ↦ rw n refl ]
  history_loop-Chain w info (suc fuel) line _ btree (Chain.changed _ p content date r ev e g c) le =
      bind-eq (history h line) _ e ∙ elim (Bool-cases (stops info date)) [
        | inl q ↦ rw q refl
        | inr n ↦ rw n (
            bind-eq (read_log h r) _ g
            ∙ history_loop-Chain w info fuel p ev (add_event info date content btree) c
                (omega (arith, le)))
      ]
