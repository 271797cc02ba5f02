-- ===== src/Actors/Match/Meaning.antt =====
-- What a precondition says: `MatchUpdate` of woori-db/src/actors/state.rs against a reading of
-- the conditions that does not run them.
use wooridb.Base.{
  ℕ, Bool-cases, ap, ◌∙◌, ◌≤◌, Bool, true, false, not, Option, none, some, text_key, arith, ◌≡◌,
  ◌↔◌, ◌⊎◌, inl, inr, refl,
}
use wooridb.Base.Map.{get}
use wooridb.Base.Int.{ℤ, pos, negsuc, compare_ℤ}
use wooridb.Wql.Types.{Types, integer, float, Entity, Float64, types_eq}
use wooridb.Wql.Condition.{
  MatchCondition, all, any, eq, not_eq, g_eq, g, l_eq, l, Conditions, end, condition,
}
use wooridb.Model.{failed_match_condition}
use wooridb.Server.{ok, err}
use wooridb.Actors.Match.{
  holds, every, some_of, test, ge_match_types, g_match_types, le_match_types, l_match_types,
  match_update, lt_ℤ, le_ℤ,
}

-- a ≤ b, by moving the negative parts to the other side
abbrev pub ◌≤ℤ◌ : ℤ → ℤ → Type 0
◌≤ℤ◌ (pos a) (pos b) = a ≤ b
◌≤ℤ◌ (pos a) (negsuc b) = ⊥
◌≤ℤ◌ (negsuc a) (pos b) = Unit
◌≤ℤ◌ (negsuc a) (negsuc b) = b ≤ a

le_ℤ_iff : (a b : ℤ) → (le_ℤ a b ≡ true) ↔ ◌≤ℤ◌ a b
unfolding compare_ℤ
le_ℤ_iff (pos a) (pos b) = ground arith
le_ℤ_iff (pos a) (negsuc b) = ground arith
le_ℤ_iff (negsuc a) (pos b) = ground arith
le_ℤ_iff (negsuc a) (negsuc b) = ground arith

lt_ℤ_iff : (a b : ℤ) → (lt_ℤ a b ≡ true) ↔ (¬ ◌≤ℤ◌ b a)
unfolding compare_ℤ
lt_ℤ_iff (pos a) (pos b) = ground arith
lt_ℤ_iff (pos a) (negsuc b) = ground arith
lt_ℤ_iff (negsuc a) (pos b) = (λ h. λ b. b, λ h. refl)
lt_ℤ_iff (negsuc a) (negsuc b) = ground arith

not_iff : (b : Bool) → (not b ≡ true) ↔ (b ≡ false)
not_iff true = (λ h. cc, λ h. cc)
not_iff false = (λ h. refl, λ h. refl)

-- Both values are integers, or both are floats, and they are in the relation.
abbrev Compares : (ℤ → ℤ → Type 0) → (ℕ → ℕ → Bool) → Types → Types → Type 0
Compares R r (integer c) (integer s) = R c s
Compares R r (float c) (float s) = r c s ≡ true
Compares R r _ _ = ⊥

module _ (f : Float64) where
  -- The state has the key, with a value as the condition asks. A nested ALL or ANY is never met.
  abbrev pub Satisfies : Entity → MatchCondition → Type 0
  Satisfies st (eq k v) = (s : Types) × (get k st ≡ some s) × (types_eq f s v ≡ true)
  Satisfies st (not_eq k v) = (s : Types) × (get k st ≡ some s) × (types_eq f s v ≡ false)
  Satisfies st (g_eq k v) = (s : Types) × (get k st ≡ some s) × Compares (λ c x. ◌≤ℤ◌ c x) f.le v s
  Satisfies st (l_eq k v) =
      (s : Types) × (get k st ≡ some s) × Compares (λ c x. ◌≤ℤ◌ x c) (λ c x. f.le x c) v s
  Satisfies st (g k v) = (s : Types) × (get k st ≡ some s) × Compares (λ c x. ¬ ◌≤ℤ◌ x c) f.lt v s
  Satisfies st (l k v) =
      (s : Types) × (get k st ≡ some s) × Compares (λ c x. ¬ ◌≤ℤ◌ c x) (λ c x. f.lt x c) v s
  Satisfies st (all c) = ⊥
  Satisfies st (any c) = ⊥

  abbrev pub AllSatisfied : Entity → Conditions → Type 0
  AllSatisfied st end = Unit
  AllSatisfied st (condition c rest) = Satisfies st c × AllSatisfied st rest

  abbrev pub SomeSatisfied : Entity → Conditions → Type 0
  SomeSatisfied st end = ⊥
  SomeSatisfied st (condition c rest) = Satisfies st c ⊎ SomeSatisfied st rest

  test_iff :
      (p : Types → Bool) (P : Types → Type 0)
      → ((s : Types) → (p s ≡ true) ↔ P s)
      → (o : Option Types) → (test f p o ≡ true) ↔ ((s : Types) × (o ≡ some s) × P s)
  test_iff p P h none = (λ e. cc, λ x. cc (x.1))
  test_iff p P h (some s) = (λ e. (s, refl, (h s).0 e), λ (s', e, q). ap (test f p) e ∙ (h s').1 q)

  ge_iff : (v s : Types) → (ge_match_types f v s ≡ true) ↔ Compares (λ c x. ◌≤ℤ◌ c x) f.le v s
  unfolding ge_match_types
  ge_iff (integer c) (integer s) = le_ℤ_iff c s
  ge_iff (float c) (float s) = (λ h. h, λ h. h)
  ge_iff _ _ = (λ h. cc, λ h. absurd h)

  g_iff : (v s : Types) → (g_match_types f v s ≡ true) ↔ Compares (λ c x. ¬ ◌≤ℤ◌ x c) f.lt v s
  unfolding g_match_types
  g_iff (integer c) (integer s) = lt_ℤ_iff c s
  g_iff (float c) (float s) = (λ h. h, λ h. h)
  g_iff _ _ = (λ h. cc, λ h. absurd h)

  le_iff :
      (v s : Types)
      → (le_match_types f v s ≡ true) ↔ Compares (λ c x. ◌≤ℤ◌ x c) (λ c x. f.le x c) v s
  unfolding le_match_types
  le_iff (integer c) (integer s) = le_ℤ_iff s c
  le_iff (float c) (float s) = (λ h. h, λ h. h)
  le_iff _ _ = (λ h. cc, λ h. absurd h)

  l_iff :
      (v s : Types)
      → (l_match_types f v s ≡ true) ↔ Compares (λ c x. ¬ ◌≤ℤ◌ c x) (λ c x. f.lt x c) v s
  unfolding l_match_types
  l_iff (integer c) (integer s) = lt_ℤ_iff s c
  l_iff (float c) (float s) = (λ h. h, λ h. h)
  l_iff _ _ = (λ h. cc, λ h. absurd h)

  holds_iff : (st : Entity) (c : MatchCondition) → (holds f st c ≡ true) ↔ Satisfies st c
  unfolding holds
  holds_iff st (eq k v) = test_iff _ _ (λ s. (λ h. h, λ h. h)) (get k st)
  holds_iff st (not_eq k v) =
      test_iff _ (λ s. types_eq f s v ≡ false) (λ s. not_iff (types_eq f s v)) (get k st)
  holds_iff st (g_eq k v) = test_iff _ _ (ge_iff v) (get k st)
  holds_iff st (l_eq k v) = test_iff _ _ (le_iff v) (get k st)
  holds_iff st (g k v) = test_iff _ _ (g_iff v) (get k st)
  holds_iff st (l k v) = test_iff _ _ (l_iff v) (get k st)
  holds_iff st (all c) = (λ h. cc, λ h. absurd h)
  holds_iff st (any c) = (λ h. cc, λ h. absurd h)

  every_iff : (st : Entity) (cs : Conditions) → (every f st cs ≡ true) ↔ AllSatisfied st cs
  unfolding every
  every_iff st end = (λ h. tt, λ h. refl)
  every_iff st (condition c rest) = (
    λ e. ((holds_iff st c).0 (ground arith), (every_iff st rest).0 (ground arith)),
    λ (p, q). rw ((holds_iff st c).1 p, (every_iff st rest).1 q),
  )

  some_of_iff : (st : Entity) (cs : Conditions) → (some_of f st cs ≡ true) ↔ SomeSatisfied st cs
  unfolding some_of
  some_of_iff st end = (λ h. cc, λ h. absurd h)
  some_of_iff st (condition c rest) = (
    λ e. elim (Bool-cases (holds f st c)) [
      | inl y ↦ inl ((holds_iff st c).0 y)
      | inr n ↦ inr ((some_of_iff st rest).0 (ground arith))
    ],
    λ e. elim e [
      | inl p ↦ rw ((holds_iff st c).1 p)
      | inr q ↦ ground (arith, (some_of_iff st rest).1 q)
    ],
  )

  -- MATCH ALL lets the update go on exactly if the stored state satisfies every condition, and
  -- ends with FailedMatchCondition exactly if it does not.
  pub match_update-all :
      (st : Entity) (cs : Conditions)
      → ((match_update f st (all cs) ≡ ok tt) ↔ AllSatisfied st cs)
        × ((match_update f st (all cs) ≡ err failed_match_condition) ↔ (¬ AllSatisfied st cs))
  unfolding match_update
  match_update-all st cs = (
    (λ e. (every_iff st cs).0 (ground arith), λ p. rw ((every_iff st cs).1 p)),
    (
      λ e p. ground (arith, (every_iff st cs).1 p),
      λ np. elim (Bool-cases (every f st cs)) [
        | inl y ↦ absurd (np ((every_iff st cs).0 y))
        | inr n ↦ rw n
      ],
    ),
  )

  -- MATCH ANY lets the update go on exactly if the stored state satisfies one of the conditions,
  -- and ends with FailedMatchCondition exactly if it satisfies none.
  pub match_update-any :
      (st : Entity) (cs : Conditions)
      → ((match_update f st (any cs) ≡ ok tt) ↔ SomeSatisfied st cs)
        × ((match_update f st (any cs) ≡ err failed_match_condition) ↔ (¬ SomeSatisfied st cs))
  unfolding match_update
  match_update-any st cs = (
    (λ e. (some_of_iff st cs).0 (ground arith), λ p. rw ((some_of_iff st cs).1 p)),
    (
      λ e p. ground (arith, (some_of_iff st cs).1 p),
      λ np. elim (Bool-cases (some_of f st cs)) [
        | inl y ↦ absurd (np ((some_of_iff st cs).0 y))
        | inr n ↦ rw n
      ],
    ),
  )
