-- ===== src/Query/Plain/Joins.antt =====
-- JOIN of states without hashes has none.
use wooridb.Base.{
  Bool, true, not, ◌&&◌, Option, none, some, List, [], ◌∷◌, Text, text, text_eq, text_key, all,
  arith, ◌≡◌, refl, Option-cases, Bool-cases, inl, inr,
}
use wooridb.Base.Map.{Map, insert}
use wooridb.Wql.Types.{Types, Entity, Uuid, Float64, is_hash}
use wooridb.Query.Response.{Response}
use wooridb.Query.Dedup.{value_or_nil}
use wooridb.Query.Join.{
  Table, values_of, present, joinable, rows, push, hash_loop, hash, combine, combine_each, naming,
  parse_states, parse,
}
use wooridb.Query.Plain.{
  plain, all_plain, all_plain_options, plain_response, all-append, all-insert,
}

abbrev pub table_plain : Table → Bool
table_plain = all (λ p. all plain p.1)

values_of-plain : (m : Map Uuid Entity) → all_plain m ≡ true → all plain (values_of m) ≡ true
unfolding values_of all
values_of-plain [] a = refl
values_of-plain ((id, s) ∷ m) a = ground (arith, values_of-plain m, a)

present-plain :
    (m : Map Uuid (Option Entity)) → all_plain_options m ≡ true → all plain (present m) ≡ true
unfolding present all
present-plain [] a = refl
present-plain ((id, none) ∷ m) a = present-plain m a
present-plain ((id, some s) ∷ m) a = ground (arith, present-plain m, a)

joinable-plain :
    (r : Response) (states : List Entity)
    → plain_response r ≡ true
    → joinable r ≡ some states
    → all plain states ≡ true
unfolding joinable
joinable-plain (Response.all m) states p e = ground (arith, e, values_of-plain m p)
joinable-plain (Response.order m) states p e = ground (arith, e, values_of-plain m p)
joinable-plain (Response.option_order m) states p e = ground (arith, e, present-plain m p)
joinable-plain (Response.option_select m) states p e = ground (arith, e, present-plain m p)
joinable-plain _ states p e = ground (arith, e)

combine-plain :
    (name : Text → Entity → Text) (key_b : Text) (ent s : Entity)
    → plain ent ≡ true
    → plain s ≡ true
    → plain (combine name key_b ent s) ≡ true
unfolding combine all
combine-plain name key_b [] s a b = b
combine-plain name key_b ((k, v) ∷ ent) s a b =
    elim (Bool-cases (not (text_eq k (text "tx_time")) && not (text_eq k key_b))) [
      | inl p ↦
          rw (p, combine)
            (combine-plain name key_b ent (insert (name k s) v s) (ground (arith, a))
              (all-insert (λ u. not (is_hash u)) (name k s) v s (ground (arith, a)) b))
      | inr n ↦ rw (n, combine) (combine-plain name key_b ent s (ground (arith, a)) b)
    ]

combine_each-plain :
    (name : Text → Entity → Text) (key_b : Text) (s : Entity) (group : List Entity)
    → plain s ≡ true
    → all plain group ≡ true
    → all plain (combine_each (λ ent. combine name key_b ent s) group) ≡ true
unfolding combine_each all
combine_each-plain name key_b s [] p a = refl
combine_each-plain name key_b s (ent ∷ group) p a =
    ground (arith, combine_each-plain name key_b s group p, combine-plain name key_b ent s, p, a)

module _ (f : Float64) where
  rows-plain :
      (v : Types) (table : Table) → table_plain table ≡ true → all plain (rows f v table) ≡ true
  unfolding rows all
  rows-plain v [] a = refl
  rows-plain v ((u, group) ∷ table) a = ground (arith, rows-plain v table, a)

  push-plain :
      (v : Types) (s : Entity) (table : Table)
      → plain s ≡ true
      → table_plain table ≡ true
      → table_plain (push f v s table) ≡ true
  unfolding push all
  push-plain v s [] p a = ground arith
  push-plain v s ((u, group) ∷ table) p a =
      ground (arith, push-plain v s table, p, a, all-append plain group (s ∷ []))

  hash_loop-plain :
      (key : Text) (states : List Entity) (table : Table)
      → all plain states ≡ true
      → table_plain table ≡ true
      → table_plain (hash_loop f key states table) ≡ true
  unfolding hash_loop all
  hash_loop-plain key [] table a b = b
  hash_loop-plain key (s ∷ states) table a b =
      hash_loop-plain key states (push f (value_or_nil key s) s table) (ground (arith, a))
        (push-plain (value_or_nil key s) s table (ground (arith, a)) b)

  parse_states-plain :
      (name : Text → Entity → Text) (key key_b : Text) (states : List Entity) (table : Table)
      → all plain states ≡ true
      → table_plain table ≡ true
      → all plain (parse_states f name key key_b states table) ≡ true
  unfolding parse_states all
  parse_states-plain name key key_b [] table a b = refl
  parse_states-plain name key key_b (s ∷ states) table a b =
      all-append plain
        (combine_each (λ ent. combine name key_b ent s) (rows f (value_or_nil key s) table)) _
        (combine_each-plain name key_b s (rows f (value_or_nil key s) table) (ground (arith, a))
          (rows-plain (value_or_nil key s) table b))
        (parse_states-plain name key key_b states table (ground (arith, a)) b)

  pub hash-plain :
      (key : Text) (r : Response) (table : Table)
      → plain_response r ≡ true
      → hash f key r ≡ some table
      → table_plain table ≡ true
  unfolding hash all
  hash-plain key r table p e = elim (Option-cases (joinable r)) [
    | inl n ↦ ground (arith, e, n)
    | inr (states, q) ↦
        ground (arith, e, q, hash_loop-plain key states [] (joinable-plain r states p q) refl)
  ]

  pub parse-plain :
      (r : Response) (key : Text) (ent_b : Text × Text) (table : Table) (result : List Entity)
      → plain_response r ≡ true
      → table_plain table ≡ true
      → parse f r key ent_b table ≡ some result
      → all plain result ≡ true
  unfolding parse
  parse-plain r key ent_b table result p t e = elim (Option-cases (joinable r)) [
    | inl n ↦ ground (arith, e, n)
    | inr (states, q) ↦ ground (
      arith,
      e,
      q,
      parse_states-plain (naming r ent_b.0) key ent_b.1 states table (joinable-plain r states p q)
          t,
    )
  ]
