-- ===== src/Query/Plain.antt =====
-- Answers without hashes, as tests of the answers of woori-db/src/schemas/query.rs, and what keeps
-- a test of all elements of a list.
pub mod Pages
pub mod Results
pub mod Relations
pub mod Lines
pub mod Joins
pub mod Answers
use wooridb.Base.{
  ℕ, zero, suc, Bool, true, false, not, ◌&&◌, Option, none, some, List, [], ◌∷◌, ◌++◌, Text,
  text_key, nat_key, take, drop, all, filter, arith, ◌≡◌, refl, if◌then◌else◌, Bool-cases, inl, inr,
}
use wooridb.Base.Map.{Map, get, insert, remove}
use wooridb.Base.Sorted as Sorted
use wooridb.Base.Sorting.{insert_sorted, sort_by}
use wooridb.Wql.Types.{Types, Entity, Uuid, is_hash}
use wooridb.Query.Response.{Response, count_response}

abbrev pub plain_value : Text × Types → Bool
plain_value p = not (is_hash p.1)

abbrev pub plain : Entity → Bool
plain = all plain_value

abbrev pub plain_option : Option Entity → Bool
plain_option none = true
plain_option (some s) = plain s

abbrev pub all_plain {κ} : {K : Type κ} → List (K × Entity) → Bool
all_plain = all (λ p. plain p.1)

abbrev pub all_plain_options {κ} : {K : Type κ} → List (K × Option Entity) → Bool
all_plain_options = all (λ p. plain_option p.1)

-- No state in the answer has a hash.
abbrev pub plain_response : Response → Bool
plain_response (Response.id state) = plain state
plain_response (Response.intersect state) = plain state
plain_response (Response.difference state) = plain state
plain_response (Response.union state) = plain state
plain_response (Response.all states) = all_plain states
plain_response (Response.order states) = all_plain states
plain_response (Response.group_by groups) = all (λ p. all_plain p.1) groups
plain_response (Response.ordered_group_by groups) = all (λ p. all_plain p.1) groups
plain_response (Response.option_order states) = all_plain_options states
plain_response (Response.option_group_by groups) = all (λ p. all_plain_options p.1) groups
plain_response (Response.option_select states) = all_plain_options states
plain_response (Response.check_values results) = true
plain_response (Response.time_range states) = all_plain states
plain_response (Response.with_count (count_response n response)) = plain_response response
plain_response (Response.date_select states) = all_plain states
plain_response (Response.join states) = all plain states

module _ {ℓ} {A : Type ℓ} (p : A → Bool) where
  pub all-append : (xs ys : List A) → all p xs ≡ true → all p ys ≡ true → all p (xs ++ ys) ≡ true
  unfolding all
  all-append [] ys a b = b
  all-append (x ∷ xs) ys a b = ground (arith, all-append xs ys, a)

  pub all-take : (n : ℕ) (xs : List A) → all p xs ≡ true → all p (take n xs) ≡ true
  unfolding all
  all-take zero xs a = refl
  all-take (suc n) [] a = refl
  all-take (suc n) (x ∷ xs) a = ground (arith, all-take n xs, a)

  pub all-drop : (n : ℕ) (xs : List A) → all p xs ≡ true → all p (drop n xs) ≡ true
  unfolding all
  all-drop zero xs a = a
  all-drop (suc n) [] a = refl
  all-drop (suc n) (x ∷ xs) a = ground (arith, all-drop n xs, a)

  pub all-filter : (q : A → Bool) (xs : List A) → all p xs ≡ true → all p (filter q xs) ≡ true
  unfolding all filter
  all-filter q [] a = refl
  all-filter q (x ∷ xs) a = ground (arith, all-filter q xs, a)

  all-insert_sorted :
      (less : A → A → Bool) (x : A) (xs : List A)
      → p x ≡ true
      → all p xs ≡ true
      → all p (insert_sorted less x xs) ≡ true
  unfolding all insert_sorted
  all-insert_sorted less x [] px a = ground arith
  all-insert_sorted less x (y ∷ xs) px a = ground (arith, all-insert_sorted less x xs, px, a)

  pub all-sort_by :
      (less : A → A → Bool) (xs : List A) → all p xs ≡ true → all p (sort_by less xs) ≡ true
  unfolding all sort_by
  all-sort_by less [] a = refl
  all-sort_by less (x ∷ xs) a =
      ground (arith, all-sort_by less xs, all-insert_sorted less x (sort_by less xs), a)

module _ {ℓ} {A : Type ℓ} (p : A → Bool) where
  abbrev pub all_values {κ} : {K : Type κ} → Map K A → Bool
  all_values = all (λ x. p x.1)

  pub all-insert :
      (k : Text) (a : A) (m : Map Text A)
      → p a ≡ true
      → all_values m ≡ true
      → all_values (insert k a m) ≡ true
  unfolding all insert
  all-insert k a [] pa h = ground arith
  all-insert k a ((j, b) ∷ m) pa h = ground (arith, all-insert k a m, pa, h)

  pub all-insert_sorted_map :
      (k : ℕ) (a : A) (m : Map ℕ A)
      → p a ≡ true
      → all_values m ≡ true
      → all_values (Sorted.insert k a m) ≡ true
  unfolding all Sorted.insert
  all-insert_sorted_map k a [] pa h = ground arith
  all-insert_sorted_map k a ((j, b) ∷ m) pa h = ground (arith, all-insert_sorted_map k a m, pa, h)

  pub all-remove :
      (k : Text) (m : Map Text A) → all_values m ≡ true → all_values (remove k m) ≡ true
  unfolding all remove
  all-remove k [] h = refl
  all-remove k ((j, b) ∷ m) h = ground (arith, all-remove k m, h)

  pub all-get :
      (k : Text) (a : A) (m : Map Text A) → all_values m ≡ true → get k m ≡ some a → p a ≡ true
  unfolding all get
  all-get k a [] h g = ground (arith, g)
  all-get k a ((j, b) ∷ m) h g = ground (arith, all-get k a m, h, g)
