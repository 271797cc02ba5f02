-- ===== src/Tests/Parsing.antt =====
-- The parser on lines with ASCII characters.
use wooridb.Base.{
  ℕ, not, all, nat_eq, text_eq, true, false, none, some, [], ◌∷◌, text, ◌≡◌, refl, arith,
}
use wooridb.Base.Map.{insert, is_some}
use wooridb.Wql.Ast.{delete, evict, dedup, limit, count}
use wooridb.Wql.Parser.{Unicode, parsed, word}
use wooridb.Wql.Parser.Statements.{name_of, delete_statement, evict_statement}
use wooridb.Wql.Parser.Statements.RoundTrip.{Plain, delete_statement-reads}
use wooridb.Wql.Parser.Algebra.{algebra_functions}
use wooridb.Wql.Parser.Algebra.Termination.{algebra_functions-ends}

abbrev ascii : Unicode
ascii = record {
  is_whitespace = nat_eq b' ';
  is_alphanumeric = λ c. true;
  to_uppercase = λ cs. cs;
  to_lowercase = λ cs. cs;
  utf8 = λ cs. cs;
  uuid_from_str = λ t. some 7;
}

limit_then_dedup :
    algebra_functions ascii 20 (text "LIMIT") [] (text "5 DEDUP name")
    ≡ some (parsed ((text "LIMIT", limit 5) ∷ (text "DEDUP", dedup (text "name")) ∷ [], []))
unfolding algebra_functions insert
limit_then_dedup = refl

-- The word after COUNT is its value, so that the LIMIT here is not one.
count_swallows_limit :
    algebra_functions ascii 20 (text "COUNT") [] (text "LIMIT 5")
    ≡ some (parsed ((text "COUNT", count) ∷ [], []))
unfolding algebra_functions insert
count_swallows_limit = refl

algebra_functions-ends_example :
    is_some (algebra_functions ascii 20 (text "LIMIT") [] (text "5 DEDUP name")) ≡ true
algebra_functions-ends_example =
    algebra_functions-ends ascii refl 20 (text "LIMIT") [] (text "5 DEDUP name") (omega arith)

abbrev letters : Unicode
letters = record ascii { is_alphanumeric = λ c. not (nat_eq c b' ') }

letters_plain : Plain letters
unfolding all
letters_plain = record {
  space_white = refl;
  alphanumeric_not_white = λ c h. not_blank c h;
  dash_not_white = refl;
  underscore_not_white = refl;
  from_alphanumeric = refl;
  from_upper = refl;
}
  where
    not_blank : (c : ℕ) → not (nat_eq c b' ') ≡ true → nat_eq b' ' c ≡ false
    not_blank c h = ground arith

-- EVICT with nothing after it is the eviction of an entity without a name.
evict_nothing :
    evict_statement (record letters { uuid_from_str = λ t. none }) [] ≡ parsed (evict [] none, [])
unfolding evict_statement name_of word
evict_nothing = refl

delete_statement-reads_example :
    delete_statement letters (text "3-4 FROM user_a")
    ≡ parsed (delete (text "user_a") (text "3-4"), [])
unfolding all text_eq
delete_statement-reads_example =
    delete_statement-reads letters letters_plain (text "3-4") (text "user_a") refl refl refl refl
      refl
