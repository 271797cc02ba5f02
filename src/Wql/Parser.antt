-- ===== src/Wql/Parser.antt =====
-- The parser's way with characters: wql/src/lib.rs and the iterators that wql/src/select.rs and
-- wql/src/language_parser.rs use. A character is its code point; what Unicode says of it, and the
-- bytes of a text, are parameters.
pub mod Algebra
pub mod Statements
use wooridb.Base.{ℕ, Bool, not, Option, none, some, List, [], ◌∷◌, Text, if◌then◌else◌}

abbrev pub Chars : Type 0
Chars = List ℕ

-- char::is_whitespace, char::is_alphanumeric, str::to_uppercase, str::to_lowercase, the encoding
-- of a String, and Uuid::from_str
pub record Unicode : Type 0 where
  pub is_whitespace : ℕ → Bool
  pub is_alphanumeric : ℕ → Bool
  pub to_uppercase : Chars → Chars
  pub to_lowercase : Chars → Chars
  pub utf8 : Chars → Text
  pub uuid_from_str : Text → Option ℕ

-- A Result<_, String>, or a panic.
pub data Parsed {ℓ} (A : Type ℓ) : Type ℓ where
  parsed : A → Parsed A
  refused : Text → Parsed A
  panics : Parsed A

abbrev pub Parser {ℓ} : Type ℓ → Type ℓ
Parser A = Chars → Parsed (A × Chars)

module _ {ℓ} {A : Type ℓ} where
  unfoldable pub give : A → Parser A
  give a cs = parsed (a, cs)

  unfoldable pub refuse : Text → Parser A
  refuse t cs = refused t

module _ {ℓ κ} {A : Type ℓ} {B : Type κ} where
  abbrev pub go_on : Parsed (A × Chars) → (A → Parser B) → Parsed (B × Chars)
  go_on (parsed (a, cs)) f = f a cs
  go_on (refused t) f = refused t
  go_on panics f = panics

  infixl 5 ◌>>=◌ ◌>>◌
  unfoldable pub ◌>>=◌ : Parser A → (A → Parser B) → Parser B
  unfolding give refuse
  ◌>>=◌ m f cs = go_on (m cs) f

  abbrev pub ◌>>◌ : Parser A → Parser B → Parser B
  m >> k = m >>= λ _. k

-- chars.skip_while(p)
unfoldable pub skip_while : (ℕ → Bool) → Chars → Chars
skip_while p [] = []
skip_while p (c ∷ cs) = let rest = skip_while p cs in if p c then rest else c ∷ cs

-- chars.take_while(p), which also consumes the first character that fails
unfoldable pub take_while : (ℕ → Bool) → Chars → Chars × Chars
take_while p [] = ([], [])
take_while p (c ∷ cs) =
    let (taken, rest) = take_while p cs in if p c then (c ∷ taken, rest) else ([], cs)

-- str::trim on characters
unfoldable pub trim_end : (ℕ → Bool) → Chars → Chars
trim_end p [] = []
trim_end p (c ∷ cs) = cons_unless p c (trim_end p cs)
  where
    cons_unless : (ℕ → Bool) → ℕ → Chars → Chars
    cons_unless p c [] = if p c then [] else c ∷ []
    cons_unless p c (d ∷ ds) = c ∷ d ∷ ds

module _ (u : Unicode) where
  unfoldable pub trim : Chars → Chars
  unfolding skip_while trim_end
  trim cs = trim_end u.is_whitespace (skip_while u.is_whitespace cs)

  -- skip_while(whitespace), then take_while(not whitespace)
  unfoldable pub word : Chars → Chars × Chars
  unfolding skip_while take_while
  word cs = take_while (λ c. not (u.is_whitespace c)) (skip_while u.is_whitespace cs)

  -- the same, in upper case
  unfoldable pub upper_word : Parser Chars
  unfolding word
  upper_word cs = let (w, rest) = word cs in parsed (u.to_uppercase w, rest)
