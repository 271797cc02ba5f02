-- ===== src/Query/Dedup/Firsts.antt =====
-- DEDUP as the first states of each value.
use wooridb.Base.{
  Bool, true, false, not, ◌&&◌, Option, none, some, List, [], ◌∷◌, Text, text, text_eq, text_eq_iff,
  text_key, any, filter, filter_congr, filter-filter, filter-true, arith, ◌≡◌, refl, sym, ap, ◌∙◌,
  if◌then◌else◌, Bool-cases, Option-cases, inl, inr,
}
use wooridb.Base.Map.{Map, get}
use wooridb.Wql.Types.{Entity, Uuid, nil, types_eq, Float64}
use wooridb.Wql.Ast.{Algebra, dedup}
use wooridb.Host.{Host}
use wooridb.Actors.Uniques.{contains}
use wooridb.Query.Dedup.{
  dedup_states, dedup_loop, dedup_key, is_nil_form, value_or_nil, unseen, fresh_plain, fresh_nil,
}

module _ {ℓ} {A : Type ℓ} where
  -- Each state without the later ones of the same value.
  abbrev pub firsts : (A → Text) → Map Uuid A → Map Uuid A
  firsts value [] = []
  firsts value ((id, state) ∷ states) =
      (id, state) ∷ filter (λ p. not (text_eq (value state) (value p.1))) (firsts value states)

  module _ (has : A → Bool) (value : A → Text) (fresh : List Text → A → Option Text)
      (fresh_has : (set : List Text) (s : A) → has s ≡ true → fresh set s ≡ unseen set (value s))
      (fresh_has_not : (set : List Text) (s : A) → has s ≡ false → fresh set s ≡ none) where
    -- What the loop keeps, given what it has seen.
    kept : List Text → Uuid × A → Bool
    unfolding contains
    kept set p = not (contains (value p.1) set)

    later_seen :
        (set : List Text) (d : Text) (xs : Map Uuid A)
        → contains d set ≡ true
        → filter (kept set) (filter (λ p. not (text_eq d (value p.1))) xs) ≡ filter (kept set) xs
    unfolding kept
    later_seen set d xs c =
        filter-filter (kept set) (λ p. not (text_eq d (value p.1))) xs
        ∙ filter_congr (λ p. not (text_eq d (value p.1)) && kept set p) (kept set)
            (λ p. ground (arith, text_eq_iff d (value p.1))) xs

    later_new :
        (set : List Text) (d : Text) (xs : Map Uuid A)
        → filter (kept (d ∷ set)) xs
          ≡ filter (kept set) (filter (λ p. not (text_eq d (value p.1))) xs)
    unfolding kept contains any
    later_new set d xs =
        filter_congr (kept (d ∷ set)) (λ p. not (text_eq d (value p.1)) && kept set p)
          (λ p. ground arith) xs
        ∙ sym (filter-filter (kept set) (λ p. not (text_eq d (value p.1))) xs)

    loop-firsts :
        (set : List Text) (m : Map Uuid A)
        → dedup_loop fresh set m ≡ filter (kept set) (firsts value (filter (λ p. has p.1) m))
    unfolding dedup_loop filter unseen kept
    loop-firsts set [] = refl
    loop-firsts set ((id, s) ∷ m) = elim (Bool-cases (has s)) [
      | inr n ↦ rw (n, fresh_has_not set s n, dedup_loop) (loop-firsts set m)
      | inl y ↦ elim (Bool-cases (contains (value s) set)) [
        | inl c ↦
            rw (y, fresh_has set s y, c, dedup_loop)
              (loop-firsts set m
                ∙ sym (later_seen set (value s) (firsts value (filter (λ p. has p.1) m)) c))
        | inr c ↦
            rw (y, fresh_has set s y, c, dedup_loop)
              (ap (λ r. (id, s) ∷ r)
                (loop-firsts (value s ∷ set) m
                  ∙ later_new set (value s) (firsts value (filter (λ p. has p.1) m))))
      ]
    ]

    pub dedup_loop-firsts :
        (m : Map Uuid A) → dedup_loop fresh [] m ≡ firsts value (filter (λ p. has p.1) m)
    unfolding kept contains any
    dedup_loop-firsts m = loop-firsts [] m ∙ filter-true (firsts value (filter (λ p. has p.1) m))

-- In the form `NIL(key)` only states with a value count.
abbrev pub is_candidate : Float64 → Text → Text → Entity → Bool
is_candidate f k key state =
    if is_nil_form k
    then elim (get key state) [ none ↦ false | some v ↦ not (types_eq f v nil) ]
    else true

module _ (h : Host) where
  -- What a key's value is shown as; a missing key counts as `Nil`.
  abbrev pub dedup_value : Text → Entity → Text
  dedup_value key state = h.debug (value_or_nil key state)

  fresh_plain_lem :
      (k : Text) (m : Map Uuid Entity)
      → dedup_loop (fresh_plain h k) [] m ≡ firsts (dedup_value k) m
  unfolding fresh_plain
  fresh_plain_lem k m =
      dedup_loop-firsts (λ s. true) (dedup_value k) (fresh_plain h k) (λ set s y. refl)
        (λ set s n. ground arith) m
      ∙ ap (firsts (dedup_value k)) (filter-true m)

  has_value : Text → Entity → Bool
  has_value key state = elim (get key state) [
    | none ↦ false
    | some v ↦ not (types_eq h.float64 v nil)
  ]

  fresh_nil_lem :
      (key : Text) (m : Map Uuid Entity)
      → dedup_loop (fresh_nil h key) [] m
        ≡ firsts (dedup_value key) (filter (λ p. has_value key p.1) m)
  unfolding fresh_nil has_value value_or_nil
  fresh_nil_lem key =
      dedup_loop-firsts (has_value key) (dedup_value key) (fresh_nil h key)
        (λ set s y. ground (arith, Option-cases (get key s)))
        (λ set s n. ground (arith, Option-cases (get key s)))

  dedup_key-plain : (k key : Text) → is_nil_form k ≡ false → dedup_key k ≡ some key → k ≡ key
  unfolding dedup_key
  dedup_key-plain k key n e = ground (arith, n, e)

  -- DEDUP of states that are all there (`dedup_states`, and not the states of IDS IN, which may be
  -- missing) shows the first state of each value; in the form `NIL(key)`, of the states that have
  -- a value that is not `Nil`.
  pub dedup_states-firsts :
      (states : Map Uuid Entity) (functions : Map Text Algebra) (k key : Text)
      → get (text "DEDUP") functions ≡ some (dedup k)
      → dedup_key k ≡ some key
      → dedup_states h states functions
        ≡ some (firsts (dedup_value key) (filter (λ p. is_candidate h.float64 k key p.1) states))
  unfolding dedup_states has_value
  dedup_states-firsts states functions k key g e = elim (Bool-cases (is_nil_form k)) [
    | inl y ↦ rw (g, e, y, dedup_states) (ap some (fresh_nil_lem key states))
    | inr n ↦
        rw (g, e, n, dedup_states, sym (dedup_key-plain k key n e))
          (ap some
            (fresh_plain_lem k states ∙ sym (ap (firsts (dedup_value k)) (filter-true states))))
  ]
