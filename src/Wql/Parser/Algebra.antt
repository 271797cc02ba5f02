-- ===== src/Wql/Parser/Algebra.antt =====
-- The functions of SELECT: `algebra_functions`, `when_selector` and `when_time_range` of
-- wql/src/select.rs. `none` is fuel that does not do.
pub mod Termination
use wooridb.Base.{
  ℕ, zero, suc, ◌+◌, ◌*◌, ◌-◌, Bool, true, false, not, ◌&&◌, ◌||◌, Option, none, some, List, [],
  ◌∷◌, Text, text, text_eq, text_key, any, length, take, drop, ltb, leb, if◌then◌else◌,
}
use wooridb.Base.Int.{full_range}
use wooridb.Base.Map.{Map, insert}
use wooridb.Base.Strings.{starts_with}
use wooridb.Wql.Types.{Uuid}
use wooridb.Wql.Ast.{
  Wql, select_when, select_when_range, ToSelect, all, keys, Order, asc, desc, Algebra, dedup,
  group_by, order_by, limit, offset, count,
}
use wooridb.Wql.Parser.{
  Chars, Unicode, Parsed, parsed, refused, panics, Parser, give, refuse, ◌>>=◌, ◌>>◌, word,
  upper_word,
}

-- the constant ALGEBRA
abbrev pub algebra : List Text
algebra =
    text "DEDUP" ∷ text "GROUP" ∷ text "ORDER" ∷ text "OFFSET" ∷ text "LIMIT" ∷ text "COUNT" ∷ []

unfoldable pub is_algebra : Chars → Bool
unfolding any text_eq
is_algebra s = any (λ a. text_eq a s) algebra

unfoldable pub order_from_str : Text → Option Order
unfolding text_eq
order_from_str s =
    if text_eq s (text ":asc")
    then some asc
    else if text_eq s (text ":desc")
    then some desc
    else none

abbrev pub is_digit : ℕ → Bool
is_digit c = leb b'0' c && leb c b'9'

unfoldable pub parse_digits : ℕ → Chars → Option ℕ
parse_digits n [] = some n
parse_digits n (c ∷ cs) =
    let rest = parse_digits (n * 10 + (c - b'0')) cs in
    if is_digit c && ltb (n * 10 + (c - b'0')) full_range then rest else none

-- str::parse::<usize>
unfoldable pub parse_usize : Chars → Option ℕ
unfolding parse_digits
parse_usize [] = none
parse_usize (c ∷ []) = parse_digits 0 (c ∷ [])
parse_usize (c ∷ d ∷ cs) =
    if text_eq (c ∷ []) (text "+") then parse_digits 0 (d ∷ cs) else parse_digits 0 (c ∷ d ∷ cs)

abbrev pub available : Text
available = text "Available functions are DEDUP, GROUP BY, ORDER BY, OFFSET, LIMIT, COUNT"

module _ (u : Unicode) where
  -- GROUP and ORDER are followed by BY.
  unfoldable pub read_by : Chars → Parser (Unit {0})
  unfolding upper_word text_eq
  read_by next =
      if text_eq next (text "GROUP") || text_eq next (text "ORDER")
      then (upper_word u >>= λ by.
          if text_eq by (text "BY")
          then give tt
          else refuse (text "ORDER and GROUP must be followed by BY"))
      else give tt

  unfoldable pub read_order : Text → Parser Algebra
  unfolding word order_from_str
  read_order value cs =
      let (w, rest) = word u cs in
      elim (order_from_str (u.to_lowercase w)) [
        | none ↦ refused (text "Order parameter should be :asc/:desc")
        | some ord ↦ parsed (order_by value ord, rest)
      ]

  -- The text of the error that `parse` gives is left out.
  abbrev pub number : (ℕ → Algebra) → Chars → Parser Algebra
  number f value cs = elim (parse_usize value) [
    | none ↦ refused (text "Error parsing value: ")
    | some n ↦ parsed (f n, cs)
  ]

  -- The match on the symbol, with the value that was read.
  unfoldable pub read_function : Chars → Chars → Parser Algebra
  unfolding parse_usize read_order text_eq
  read_function next value cs =
      if text_eq next (text "DEDUP")
      then parsed (dedup (u.utf8 value), cs)
      else if text_eq next (text "GROUP")
      then parsed (group_by (u.utf8 value), cs)
      else if text_eq next (text "ORDER")
      then read_order (u.utf8 value) cs
      else if text_eq next (text "OFFSET")
      then number offset value cs
      else if text_eq next (text "LIMIT")
      then number limit value cs
      else if text_eq next (text "COUNT")
      then parsed (count, cs)
      else refused available

  -- One turn of the loop: the function, and the next symbol.
  unfoldable pub algebra_step : Chars → Parser (Algebra × Chars)
  unfolding read_by read_function word upper_word ◌>>=◌
  algebra_step next = read_by next >>= λ _. (λ cs. parsed (word u cs)) >>= λ value.
      read_function next value >>= λ f. upper_word u >>= λ symbol. give (f, symbol)

  unfoldable pub algebra_functions :
      ℕ → Chars → Map Text Algebra → Chars → Option (Parsed (Map Text Algebra × Chars))
  unfolding is_algebra algebra_step
  algebra_functions zero next functions cs = none
  algebra_functions (suc fuel) next functions cs =
      if is_algebra next
      then (elim (algebra_step next cs) [
        | refused t ↦ some (refused t)
        | panics ↦ some panics
        | parsed ((f, symbol), rest) ↦ algebra_functions fuel symbol (insert next f functions) rest
      ])
      else elim cs [ [] ↦ some (parsed (functions, [])) | c ∷ r ↦ some (refused available) ]

  -- &start_date[0..10]
  unfoldable pub first_ten : Text → Option Text
  first_ten t = if ltb (length t) 10 then none else elim (drop 10 t) [
    | [] ↦ some t
    | b ∷ r ↦ if leb 128 b && ltb b 192 then none else some (take 10 t)
  ]

  unfoldable pub when_time_range : Text → Uuid → Parser Wql
  unfolding word upper_word first_ten starts_with ◌>>=◌ text_eq
  when_time_range entity_name id = (λ cs. parsed (word u cs)) >>= λ start_date.
      upper_word u >>= λ next_symbol.
      if not (text_eq (u.to_uppercase next_symbol) (text "END"))
      then refuse (text "Keyword END is required after START date for SELECT WHEN")
      else ((λ cs. parsed (word u cs)) >>= λ end_date. elim (first_ten (u.utf8 start_date)) [
        | none ↦ λ cs. panics
        | some day ↦
            if starts_with day (u.utf8 end_date)
            then give (select_when_range entity_name id (u.utf8 start_date) (u.utf8 end_date))
            else refuse (text "START date and END date should be the same date.")
      ])

  abbrev is_range : ToSelect → Option Uuid → Bool → Option Uuid
  is_range all (some id) true = some id
  is_range _ _ _ = none

  unfoldable pub when_selector : Text → ToSelect → Option Uuid → Parser Wql
  unfolding upper_word word when_time_range ◌>>=◌ text_eq
  when_selector entity_name arg id = upper_word u >>= λ next_symbol.
      elim (is_range arg id (text_eq (u.to_uppercase next_symbol) (text "START"))) [
        | some i ↦ when_time_range entity_name i
        | none ↦
            if not (text_eq (u.to_uppercase next_symbol) (text "AT"))
            then refuse (text "Keyword AT is required after WHEN")
            else ((λ cs. parsed (word u cs)) >>= λ date.
                give (select_when entity_name arg id (u.utf8 date)))
      ]
