-- ===== src/Actors/Uniques/Registering.antt =====
-- What `try_for_each` over a content does to the recorded values of woori-db/src/actors/uniques.rs.
use wooridb.Base.{
  Bool, true, false, Option, none, some, List, [], ◌∷◌, Text, text_key, text_eq_iff, text_eq_refl,
  arith, ◌≡◌, ◌⊎◌, refl, Bool-cases, Option-cases, inl, inr,
}
use wooridb.Base.Map.{Map, get, insert, contains_key, get-insert}
use wooridb.Wql.Types.{Types, Entity}
use wooridb.Model.{duplicated_unique}
use wooridb.Host.{Host}
use wooridb.Server.{Outcome, ok, err}
use wooridb.Actors.Uniques.{contains, register}

-- The value is recorded under the unique key.
abbrev pub recorded_in : Text → Option (List Text) → Bool
recorded_in x none = false
recorded_in x (some vals) = contains x vals

unfoldable pub recorded : Text → Text → Map Text (List Text) → Bool
unfolding contains
recorded k x u = recorded_in x (get k u)

-- The content has the pair.
abbrev pub HasPair : Text → Types → Entity → Type 0
HasPair k v [] = ⊥
HasPair k v ((j, w) ∷ content) = ((j ≡ k) × (w ≡ v)) ⊎ HasPair k v content

abbrev pub Duplicated : Text → Outcome (Unit {0}) → Type 0
Duplicated entity r = (k : Text) × (v : Types) × (r ≡ err (duplicated_unique entity k v))

recorded-add :
    (u : Map Text (List Text)) (j k x y : Text) (vals : List Text)
    → get j u ≡ some vals
    → recorded k x u ≡ true
    → recorded k x (insert j (y ∷ vals) u) ≡ true
unfolding recorded
recorded-add u j k x y vals g e = rw (get-insert j k (y ∷ vals) u) (ground (arith, text_eq_iff j k))

recorded-new :
    (u : Map Text (List Text)) (j x : Text) (vals : List Text)
    → recorded j x (insert j (x ∷ vals) u) ≡ true
unfolding recorded
recorded-new u j x vals =
    rw (get-insert j j (x ∷ vals) u, text_eq_refl j) (ground (arith, text_eq_refl x))

module _ (h : Host) (entity : Text) where
  -- What one pair of the content does.
  module _ (j : Text) (v : Types) (content : Entity) (u : Map Text (List Text)) where
    register-skip :
        get j u ≡ none → register h entity ((j, v) ∷ content) u ≡ register h entity content u
    unfolding register
    register-skip n = ground arith

    register-stop :
        (vals : List Text)
        → get j u ≡ some vals
        → contains (h.debug v) vals ≡ true
        → register h entity ((j, v) ∷ content) u ≡ (err (duplicated_unique entity j v), u)
    unfolding register
    register-stop vals g y = ground arith

    register-next :
        (vals : List Text)
        → get j u ≡ some vals
        → contains (h.debug v) vals ≡ false
        → register h entity ((j, v) ∷ content) u
          ≡ register h entity content (insert j (h.debug v ∷ vals) u)
    unfolding register
    register-next vals g n = ground arith

    -- A property of the result, from the three cases.
    register_cases :
        (P : Outcome (Unit {0}) × Map Text (List Text) → Type 0)
        → (get j u ≡ none → P (register h entity content u))
        → ((vals : List Text)
            → get j u ≡ some vals
            → contains (h.debug v) vals ≡ true
            → P (err (duplicated_unique entity j v), u))
        → ((vals : List Text)
            → get j u ≡ some vals
            → contains (h.debug v) vals ≡ false
            → P (register h entity content (insert j (h.debug v ∷ vals) u)))
        → P (register h entity ((j, v) ∷ content) u)
    register_cases P skip stop next = elim (Option-cases (get j u)) [
      | inl n ↦ rw (register-skip n) (skip n)
      | inr (vals, g) ↦ elim (Bool-cases (contains (h.debug v) vals)) [
        | inl y ↦ rw (register-stop vals g y) (stop vals g y)
        | inr n ↦ rw (register-next vals g n) (next vals g n)
      ]
    ]

  -- Nothing that was recorded is lost, also where the message fails.
  pub register-keeps :
      (content : Entity) (u : Map Text (List Text)) (k x : Text)
      → recorded k x u ≡ true
      → recorded k x (register h entity content u).1 ≡ true
  unfolding register
  register-keeps [] u k x e = e
  register-keeps ((j, v) ∷ content) u k x e =
      register_cases j v content u (λ r. recorded k x r.1 ≡ true)
        (λ n. register-keeps content u k x e) (λ vals g y. e)
        (λ vals g n.
          register-keeps content (insert j (h.debug v ∷ vals) u) k x
            (recorded-add u j k x (h.debug v) vals g e))

  -- A success records each value of the content under its unique key.
  pub register-records :
      (content : Entity) (u : Map Text (List Text)) (k : Text) (v : Types)
      → HasPair k v content
      → contains_key k u ≡ true
      → (register h entity content u).0 ≡ ok tt
      → recorded k (h.debug v) (register h entity content u).1 ≡ true
  register-records [] u k v m c e = absurd m
  register-records ((j, x) ∷ content) u k v m c e =
      register_cases j x content u (λ r. r.0 ≡ ok tt → recorded k (h.debug v) r.1 ≡ true)
        (λ n e'. elim m [
          | inl p ↦ absurd (missing n p.0)
          | inr q ↦ register-records content u k v q c e'
        ])
        (λ vals g y e'. cc)
        (λ vals g n e'. elim m [
          | inl p ↦
              register-keeps content (insert j (h.debug x ∷ vals) u) k (h.debug v)
                (rw (← p.0, ← p.1) (recorded-new u j (h.debug x) vals))
          | inr q ↦ register-records content (insert j (h.debug x ∷ vals) u) k v q (kept vals) e'
        ])
        e
    where
      missing : get j u ≡ none → j ≡ k → ⊥
      missing n p = unfold contains_key in ground arith

      kept : (vals : List Text) → contains_key k (insert j (h.debug x ∷ vals) u) ≡ true
      kept vals = unfold contains_key in rw (get-insert j k (h.debug x ∷ vals) u) (ground arith)

  -- A content with a recorded value under its unique key is refused.
  pub register-refuses :
      (content : Entity) (u : Map Text (List Text)) (k : Text) (v : Types)
      → HasPair k v content
      → recorded k (h.debug v) u ≡ true
      → Duplicated entity (register h entity content u).0
  register-refuses [] u k v m e = absurd m
  register-refuses ((j, x) ∷ content) u k v m e =
      register_cases j x content u (λ r. Duplicated entity r.0)
        (λ n. elim m [
          | inl p ↦ absurd (missing n p.0)
          | inr q ↦ register-refuses content u k v q e
        ])
        (λ vals g y. (j, x, refl))
        (λ vals g n. elim m [
          | inl p ↦ absurd (present vals g n p.0 p.1)
          | inr q ↦
              register-refuses content (insert j (h.debug x ∷ vals) u) k v q
                (recorded-add u j k (h.debug v) (h.debug x) vals g e)
        ])
    where
      missing : get j u ≡ none → j ≡ k → ⊥
      missing n p = unfold recorded in ground arith

      present :
          (vals : List Text)
          → get j u ≡ some vals
          → contains (h.debug x) vals ≡ false
          → j ≡ k
          → x ≡ v
          → ⊥
      present vals g n p q = unfold recorded in ground arith
