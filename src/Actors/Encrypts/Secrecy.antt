-- ===== src/Actors/Encrypts/Secrecy.antt =====
-- What `EncryptContent` of woori-db/src/actors/encrypts.rs makes of a content.
use wooridb.Base.{
  Bool, true, false, Option, none, some, List, [], ◌∷◌, Text, text, text_eq, text_key, text_eq_iff,
  arith, ◌≡◌, refl, sym, ◌∙◌, if◌then◌else◌, Bool-cases, Option-cases, inl, inr,
}
use wooridb.Base.Map.{get, insert, get-insert}
use wooridb.Wql.Types.{Types, hash, date_time, is_hash, Entity, DateTime}
use wooridb.Host.{Host}
use wooridb.Server.{World, ok}
use wooridb.Actors.Uniques.{contains}
use wooridb.Actors.Encrypts.{to_hash, encrypt_value, encrypt_all, encrypt, encrypt_content}

abbrev encrypted_at : Host → List Text → Text → Option Types → Option Types
encrypted_at h keys k none = none
encrypted_at h keys k (some v) = encrypt_value h keys k v

module _ (h : Host) (keys : List Text) where
  -- Encryption works key by key.
  get-encrypt_all :
      (content r : Entity) (k : Text)
      → encrypt_all h keys content ≡ some r
      → get k r ≡ encrypted_at h keys k (get k content)
  unfolding encrypt_all get
  get-encrypt_all [] r k e = ground arith
  get-encrypt_all ((j, v) ∷ content) r k e = elim (Option-cases (encrypt_value h keys j v)) [
    | inl n ↦ ground arith
    | inr (x, ev) ↦ elim (Option-cases (encrypt_all h keys content)) [
      | inl n ↦ ground arith
      | inr (t, et) ↦ ground (arith, text_eq_iff j k, get-encrypt_all content t k)
    ]
  ]

  to_hash-is_hash : (v x : Types) → to_hash h v ≡ some x → is_hash x ≡ true
  unfolding to_hash is_hash
  to_hash-is_hash (hash s) x e = ground arith
  to_hash-is_hash _ x e = ground arith

  encrypt_value-secret :
      (k : Text) (o : Option Types) (x : Types)
      → contains k keys ≡ true
      → encrypted_at h keys k o ≡ some x
      → is_hash x ≡ true
  unfolding encrypt_value
  encrypt_value-secret k none x c e = ground arith
  encrypt_value-secret k (some v) x c e = to_hash-is_hash v x (ground arith)

  encrypt_value-plain :
      (k : Text) (o : Option Types) → contains k keys ≡ false → encrypted_at h keys k o ≡ o
  unfolding encrypt_value
  encrypt_value-plain k none c = refl
  encrypt_value-plain k (some v) c = ground arith

-- Nothing, or a hash.
abbrev pub IsSecret : Option Types → Type 0
IsSecret none = Unit
IsSecret (some v) = is_hash v ≡ true

-- What is shown of a value: under an encrypted key a hash or nothing, else the value.
abbrev pub ShownAs : Bool → Option Types → Option Types → Type 0
ShownAs true given shown = IsSecret shown
ShownAs false given shown = shown ≡ given

secret : (o : Option Types) → ((v : Types) → o ≡ some v → is_hash v ≡ true) → IsSecret o
secret none f = tt
secret (some v) f = f v refl

module _ (h : Host) (w : World) (entity : Text) (keys : List Text)
    (registered : get entity w.encryption ≡ some keys) where
  encrypt-encrypt_all :
      (content r : Entity) (w' : World)
      → encrypt h entity content w ≡ (ok r, w')
      → encrypt_all h keys content ≡ some r
  unfolding encrypt
  encrypt-encrypt_all content r w' e = ground arith

  -- Where an entity has encrypted keys and the message succeeds, the content that goes on to the
  -- log and the store has under each encrypted key a hash or nothing, and under every other key
  -- what the request gave, the transaction time being added.
  pub encrypt_content-secret :
      (content r : Entity) (date : DateTime) (w' : World) (k : Text)
      → encrypt_content h entity content date w ≡ (ok r, w')
      → ShownAs
          (contains k keys)
          (if text_eq (text "tx_time") k then some (date_time date) else get k content)
          (get k r)
  unfolding encrypt_content
  encrypt_content-secret content r date w' k e =
      let all = encrypt-encrypt_all (insert (text "tx_time") (date_time date) content) r w' e in
      let at = get-encrypt_all h keys _ r k all in
      elim (Bool-cases (contains k keys)) [
        | inl y ↦ rw y (secret (get k r) (λ v g. encrypt_value-secret h keys k _ v y (sym at ∙ g)))
        | inr n ↦
            rw n (at ∙ encrypt_value-plain h keys k _ n ∙ get-insert (text "tx_time") k _ content)
      ]
