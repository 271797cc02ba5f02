-- ===== src/Query/Groups/Partition.antt =====
-- Groups hold each state once, under the text of its value.
use wooridb.Base.{
  ℕ, ◌<◌, Bool, true, false, List, [], ◌∷◌, ◌++◌, Text, text_eq, text_eq_iff, text_key, filter,
  arith, ◌≡◌, refl, sym, ap, ◌∙◌, if◌then◌else◌, Bool-cases, inl, inr,
}
use wooridb.Base.Map.{Map, get, insert, get-insert}
use wooridb.Base.Sorted as Sorted
use wooridb.Base.Sorted.{Below, IsSorted}
use wooridb.Wql.Types.{Uuid}
use wooridb.Query.Groups.{group_at, group_loop}
use mathlib.Core.List.{Perm, perm_middle, append_assoc, append-nil}
use mathlib.Core.List.Perm

module _ {ℓ} {A : Type ℓ} where
  -- All ids are below.
  abbrev Under : ℕ → Map Uuid A → Type 0
  Under b [] = Unit
  Under b ((i, s) ∷ m) = (i < b) × Under b m

  insert-last :
      (id : Uuid) (s : A) (m : Map Uuid A) → Under id m → Sorted.insert id s m ≡ m ++ (id, s) ∷ []
  unfolding Sorted.insert
  insert-last id s [] u = refl
  insert-last id s ((i, t) ∷ m) u = ground (arith, insert-last id s m u.1, u.0)

  -- The states of all groups.
  abbrev pub all_of : Map Text (List (Uuid × A)) → List (Uuid × A)
  all_of [] = []
  all_of ((d, g) ∷ groups) = g ++ all_of groups

  abbrev AllUnder : ℕ → Map Text (Map Uuid A) → Type 0
  AllUnder b [] = Unit
  AllUnder b ((d, g) ∷ groups) = Under b g × AllUnder b groups

  group_at-Under :
      (b : ℕ) (d : Text) (groups : Map Text (Map Uuid A))
      → AllUnder b groups
      → Under b (group_at d groups)
  unfolding group_at get
  group_at-Under b d [] u = tt
  group_at-Under b d ((e, g) ∷ groups) u = elim (Bool-cases (text_eq e d)) [
    | inl p ↦ rw (p, Under) u.0
    | inr n ↦ rw (n, Under) (group_at-Under b d groups u.1)
  ]

  Under-mono : (a b : ℕ) (m : Map Uuid A) → a < b → Under a m → Under b m
  Under-mono a b [] lt u = tt
  Under-mono a b ((i, s) ∷ m) lt u = (omega (arith, u.0), Under-mono a b m lt u.1)

  AllUnder-mono : (a b : ℕ) (gs : Map Text (Map Uuid A)) → a < b → AllUnder a gs → AllUnder b gs
  AllUnder-mono a b [] lt u = tt
  AllUnder-mono a b ((d, g) ∷ gs) lt u = (Under-mono a b g lt u.0, AllUnder-mono a b gs lt u.1)

  Under-snoc :
      (b id : ℕ) (s : A) (m : Map Uuid A) → id < b → Under b m → Under b (m ++ (id, s) ∷ [])
  Under-snoc b id s [] lt u = (lt, tt)
  Under-snoc b id s ((i, t) ∷ m) lt u = (u.0, Under-snoc b id s m lt u.1)

  AllUnder-insert :
      (b : ℕ) (d : Text) (g : Map Uuid A) (groups : Map Text (Map Uuid A))
      → Under b g
      → AllUnder b groups
      → AllUnder b (insert d g groups)
  unfolding insert
  AllUnder-insert b d g [] ug u = (ug, tt)
  AllUnder-insert b d g ((e, f) ∷ groups) ug u = elim (Bool-cases (text_eq e d)) [
    | inl p ↦ rw p (ug, u.1)
    | inr n ↦ rw n (u.0, AllUnder-insert b d g groups ug u.1)
  ]

  group_at-nil : (d : Text) → group_at {A = A} d [] ≡ []
  unfolding group_at get
  group_at-nil d = refl

  group_at-here :
      (d e : Text) (g : Map Uuid A) (groups : Map Text (Map Uuid A))
      → text_eq e d ≡ true
      → group_at d ((e, g) ∷ groups) ≡ g
  unfolding group_at get
  group_at-here d e g groups p = ground (arith, p)

  group_at-later :
      (d e : Text) (g : Map Uuid A) (groups : Map Text (Map Uuid A))
      → text_eq e d ≡ false
      → group_at d ((e, g) ∷ groups) ≡ group_at d groups
  unfolding group_at get
  group_at-later d e g groups n = ground (arith, n)

  -- One more state in its group is one more state in all.
  insert-all_of :
      (d : Text) (x : Uuid × A) (groups : Map Text (Map Uuid A)) (g' : Map Uuid A)
      → g' ≡ group_at d groups ++ x ∷ []
      → Perm (all_of (insert d g' groups)) (x ∷ all_of groups)
  unfolding insert
  insert-all_of d x [] g' q = rw (q, group_at-nil d) Perm.rfl
  insert-all_of d x ((e, g) ∷ groups) g' q = elim (Bool-cases (text_eq e d)) [
    | inl p ↦
        rw (p, q, group_at-here d e g groups p, append_assoc g (x ∷ []) (all_of groups))
          (perm_middle g (all_of groups))
    | inr n ↦ rw n (
        Perm.trans
          (Perm.append_left g (
            insert-all_of d x groups g'
              (q ∙ ap (λ r. r ++ x ∷ []) (group_at-later d e g groups n))))
          (perm_middle g (all_of groups)))
  ]

  -- What holds at each step of the loop.
  step :
      (d : Text) (id : Uuid) (s : A) (groups : Map Text (Map Uuid A))
      → AllUnder id groups
      → Sorted.insert id s (group_at d groups) ≡ group_at d groups ++ (id, s) ∷ []
  step d id s groups u = insert-last id s (group_at d groups) (group_at-Under id d groups u)

  module _ (value : A → Text) where
    abbrev has_value : Text → Uuid × A → Bool
    has_value d p = text_eq (value p.1) d

    -- The ids that are left come after those in the groups.
    Apart : Map Uuid A → Map Text (Map Uuid A) → Type 0
    Apart [] groups = Unit
    Apart ((id, s) ∷ m) groups = AllUnder id groups × IsSorted ((id, s) ∷ m)

    Apart-step :
        (id : Uuid) (s : A) (m : Map Uuid A) (groups : Map Text (Map Uuid A))
        → Apart ((id, s) ∷ m) groups
        → Apart m (insert (value s) (Sorted.insert id s (group_at (value s) groups)) groups)
    unfolding Apart
    Apart-step id s [] groups a = tt
    Apart-step id s ((j, t) ∷ m) groups a = (
      rw (step (value s) id s groups a.0) (
          AllUnder-insert j (value s) (group_at (value s) groups ++ (id, s) ∷ []) groups
            (Under-snoc j id s (group_at (value s) groups) a.1.0 (
              Under-mono id j (group_at (value s) groups) a.1.0
                (group_at-Under id (value s) groups a.0)))
            (AllUnder-mono id j groups a.1.0 a.0)),
      a.1.1,
    )

    group_loop-Perm :
        (m : Map Uuid A) (groups : Map Text (Map Uuid A))
        → Apart m groups
        → Perm (all_of (group_loop value m groups)) (m ++ all_of groups)
    unfolding group_loop Apart
    group_loop-Perm [] groups a = Perm.rfl
    group_loop-Perm ((id, s) ∷ m) groups a =
        Perm.trans (group_loop-Perm m _ (Apart-step id s m groups a)) (
          Perm.trans
            (Perm.append_left m
              (insert-all_of (value s) (id, s) groups _ (step (value s) id s groups a.0)))
            (perm_middle m (all_of groups)))

    group_at-insert :
        (d : Text) (id : Uuid) (s : A) (groups : Map Text (Map Uuid A))
        → AllUnder id groups
        → group_at d (insert (value s) (Sorted.insert id s (group_at (value s) groups)) groups)
          ≡ (if text_eq (value s) d then group_at d groups ++ (id, s) ∷ [] else group_at d groups)
    unfolding group_at
    group_at-insert d id s groups u = ground (
      arith,
      get-insert (value s) d (group_at (value s) groups ++ (id, s) ∷ []) groups,
      step (value s) id s groups u,
      text_eq_iff (value s) d,
    )

    append-if :
        (b : Bool) (x : Uuid × A) (g rest : Map Uuid A)
        → (if b then g ++ x ∷ [] else g) ++ rest ≡ g ++ (if b then x ∷ rest else rest)
    append-if true x g rest = append_assoc g (x ∷ []) rest
    append-if false x g rest = refl

    group_at-group_loop :
        (d : Text) (m : Map Uuid A) (groups : Map Text (Map Uuid A))
        → Apart m groups
        → group_at d (group_loop value m groups) ≡ group_at d groups ++ filter (has_value d) m
    unfolding group_loop Apart filter
    group_at-group_loop d [] groups a = sym (append-nil (group_at d groups))
    group_at-group_loop d ((id, s) ∷ m) groups a =
        group_at-group_loop d m _ (Apart-step id s m groups a)
        ∙ ap (λ g. g ++ filter (has_value d) m) (group_at-insert d id s groups a.0)
        ∙ append-if (text_eq (value s) d) (id, s) (group_at d groups) (filter (has_value d) m)

    IsSorted-Apart : (m : Map Uuid A) → IsSorted m → Apart m []
    unfolding Apart
    IsSorted-Apart [] s = tt
    IsSorted-Apart ((id, t) ∷ m) s = (tt, s)

    -- The groups hold each state once.
    pub groups-Perm : (m : Map Uuid A) → IsSorted m → Perm (all_of (group_loop value m [])) m
    groups-Perm m s =
        Perm.trans (group_loop-Perm m [] (IsSorted-Apart m s)) (rw (append-nil m) Perm.rfl)

    -- The group of a text holds the states whose value has it, in their order.
    pub group_at-filter :
        (d : Text) (m : Map Uuid A)
        → IsSorted m
        → group_at d (group_loop value m []) ≡ filter (has_value d) m
    unfolding filter group_at get
    group_at-filter d m s = group_at-group_loop d m [] (IsSorted-Apart m s)
