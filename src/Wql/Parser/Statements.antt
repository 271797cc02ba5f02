-- ===== src/Wql/Parser/Statements.antt =====
-- The statements without a map: `delete` and `evict` of wql/src/language_parser.rs.
pub mod RoundTrip
use wooridb.Base.{
  ℕ, zero, suc, Bool, true, false, not, ◌&&◌, ◌||◌, Option, none, some, List, [], ◌∷◌, Text, text,
  text_eq, any, all, nat_eq, ◌++◌, if◌then◌else◌,
}
use wooridb.Wql.Types.{Uuid}
use wooridb.Wql.Ast.{Wql, create_entity, delete, evict}
use wooridb.Wql.Parser.{
  Chars, Unicode, Parsed, parsed, refused, panics, Parser, give, refuse, ◌>>=◌, skip_while,
  take_while, trim, word, upper_word,
}

abbrev is_empty : Chars → Bool
is_empty [] = true
is_empty (c ∷ cs) = false

module _ (u : Unicode) where
  -- take_while of the characters of a name, then trim
  unfoldable pub name_of : (ℕ → Bool) → Parser Chars
  unfolding take_while trim
  name_of p cs = let (taken, rest) = take_while p cs in parsed (trim u taken, rest)

  abbrev pub in_name : ℕ → Bool
  in_name c = u.is_alphanumeric c || nat_eq c b'_'

  abbrev pub in_id : ℕ → Bool
  in_id c = u.is_alphanumeric c || nat_eq c b'-'

  abbrev pub in_info : ℕ → Bool
  in_info c = u.is_alphanumeric c || nat_eq c b'-' || nat_eq c b'_'

  abbrev named : Text → (Text → Wql) → Chars → Parser Wql
  named e f name = if is_empty name then refuse e else give (f (u.utf8 name))

  -- delete, after its keyword
  unfoldable pub delete_statement : Parser Wql
  unfolding ◌>>=◌ give refuse text_eq
  delete_statement = name_of in_id >>= λ entity_id.
      if is_empty entity_id || text_eq entity_id (text "FROM")
      then refuse (text "Entity UUID is required for DELETE")
      else (upper_word u >>= λ entity_symbol.
          if not (text_eq entity_symbol (text "FROM"))
          then refuse (text "Keyword FROM is required for DELETE")
          else (name_of in_name >>= λ entity_name.
              named (text "Entity name is required after FROM")
                (λ name. delete name (u.utf8 entity_id)) entity_name))

  -- evict, after its keyword
  unfoldable pub evict_statement : Parser Wql
  unfolding ◌>>=◌ give refuse any text_eq
  evict_statement = name_of in_info >>= λ info. elim (u.uuid_from_str (u.utf8 info)) [
    | none ↦
        if any (nat_eq b'-') info
        then refuse (text "Entity name cannot contain `-`")
        else give (evict (u.utf8 info) none)
    | some id ↦ (λ cs. parsed (word u cs)) >>= λ from_symbol.
        if not (text_eq (u.to_uppercase (trim u from_symbol)) (text "FROM"))
        then refuse (text "Keyword FROM is required to EVICT an UUID")
        else (name_of in_name >>= λ name.
            named (text "Entity name is required for EVICT") (λ name. evict name (some id)) name)
  ]
