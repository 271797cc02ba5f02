-- ===== src/Query/CheckValue/Answers.antt =====
-- What CHECK answers.
use wooridb.Base.{
  Bool, true, false, Option, none, some, [], ◌∷◌, Text, text_eq_iff, text_key, nat_key, arith, ◌≡◌,
  refl, sym, ap, ◌∙◌, Option-cases, inl, inr,
}
use wooridb.Base.Map.{Map, get, contains_key, is_some}
use wooridb.Wql.Types.{Types, Entity, nil, hash}
use wooridb.Host.{Host}
use wooridb.Query.Dedup.{value_or_nil}
use wooridb.Query.CheckValue.{filter_state, verify, verify_encryption}

get-filter_state :
    (s : Entity) (content : Map Text Text) (k : Text)
    → contains_key k content ≡ true
    → get k (filter_state s content) ≡ get k s
unfolding filter_state get
get-filter_state [] content k c = refl
get-filter_state ((j, v) ∷ s) content k c =
    ground (arith, text_eq_iff j k, get-filter_state s content k, c)

module _ (h : Host) where
  get-verify_encryption :
      (s : Entity) (content : Map Text Text) (results : Map Text Bool) (k v : Text)
      → verify_encryption h s content ≡ some results
      → get k content ≡ some v
      → verify h (value_or_nil k s) v ≡ get k results
  unfolding verify_encryption get
  get-verify_encryption s [] results k v e g = ground (arith, g)
  get-verify_encryption s ((j, u) ∷ content) results k v e g =
      elim (Option-cases (verify h (value_or_nil j s) u)) [
        | inl n ↦ ground (arith, e, n)
        | inr (b, p) ↦ elim (Option-cases (verify_encryption h s content)) [
          | inl n ↦ ground (arith, e, n, p)
          | inr (rest, q) ↦
              ground
                (arith, e, p, q, g, text_eq_iff j k, get-verify_encryption s content rest k v q)
        ]
      ]

  -- What bcrypt says of the text against the stored hash; false where no hash is stored.
  abbrev pub answer_to : Option Types → Text → Option Bool
  answer_to (some (hash t)) v = h.bcrypt_verify v t
  answer_to _ v = some false

  -- For each key that is asked for, the answer is whether its text verifies against the hash that
  -- the state has under the key, and false where the state has no hash there.
  pub verify_encryption-answers :
      (s : Entity) (content : Map Text Text) (results : Map Text Bool) (k v : Text)
      → verify_encryption h (filter_state s content) content ≡ some results
      → get k content ≡ some v
      → get k results ≡ answer_to (get k s) v
  unfolding value_or_nil contains_key is_some verify
  verify_encryption-answers s content results k v e g =
      sym (get-verify_encryption (filter_state s content) content results k v e g)
      ∙ ap (λ o. verify h (elim o as (λ _. Types) [ none ↦ nil | some x ↦ x ]) v)
          (get-filter_state s content k (rw g refl))
      ∙ by (get k s)
    where
      by :
          (o : Option Types)
          → verify h (elim o as (λ _. Types) [ none ↦ nil | some x ↦ x ]) v ≡ answer_to o v
      by none = refl
      by (some (hash t)) = refl
      by (some _) = refl
