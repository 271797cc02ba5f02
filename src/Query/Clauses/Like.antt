-- ===== src/Query/Clauses/Like.antt =====
-- LIKE in WHERE and in OR.
use wooridb.Base.{true, false, [], ◌∷◌, Text, text, text_eq, arith, ◌≡◌, refl, Bool-cases}
use wooridb.Base.Strings.{starts_with, ends_with, has_part, without}
use wooridb.Wql.Types.{string}
use wooridb.Query.Clauses.{like_where, like_or}

starts_with-has_part : (p s : Text) → starts_with p s ≡ true → has_part p s ≡ true
unfolding has_part
starts_with-has_part p [] h = h
starts_with-has_part p (a ∷ s) h = ground (arith, h)

text_eq-starts_with : (p s : Text) → text_eq p s ≡ true → starts_with p s ≡ true
unfolding text_eq starts_with
text_eq-starts_with [] s h = refl
text_eq-starts_with (a ∷ p) [] h = ground arith
text_eq-starts_with (a ∷ p) (b ∷ s) h = ground (arith, text_eq-starts_with p s)

ends_with-has_part : (p s : Text) → ends_with p s ≡ true → has_part p s ≡ true
unfolding has_part ends_with
ends_with-has_part p [] h = text_eq-starts_with p [] h
ends_with-has_part p (b ∷ s) h =
    ground (arith, h, text_eq-starts_with p (b ∷ s), ends_with-has_part p s)

-- In WHERE a pattern asks for its text anywhere in the value, wherever its `%` stand; within OR a
-- pattern that ends with the only `%` asks for a beginning.
pub like_where-has_part :
    (content regex : Text)
    → (like_where (string content) (string regex) ≡ has_part (without b'%' regex) content)
      × (starts_with (text "%") regex ≡ false
          → ends_with (text "%") regex ≡ true
          → like_or (string content) (string regex) ≡ starts_with (without b'%' regex) content)
unfolding like_where like_or
like_where-has_part content regex = (
  ground (
    arith,
    starts_with-has_part (without b'%' regex) content,
    ends_with-has_part (without b'%' regex) content,
    Bool-cases (has_part (without b'%' regex) content),
  ),
  λ n y. ground (arith, n, y),
)
