-- ===== src/Query/Clauses/Meaning.antt =====
-- The clauses of WHERE, one after the other, as one test of each state.
use wooridb.Base.{
  Bool, true, false, ◌&&◌, Option, none, some, [], ◌∷◌, Text, filter, filter-filter, filter-true,
  arith, ◌≡◌, sym, ap, ◌∙◌, Option-cases, inl, inr,
}
use wooridb.Base.Map.{Map}
use wooridb.Wql.Types.{Entity, Uuid, Float64}
use wooridb.Wql.Ast.{Clauses, end, clause}
use wooridb.Query.Clauses.{keeps, filter_states, filter_where_clauses}

abbrev pub is_true : Option Bool → Bool
is_true none = false
is_true (some b) = b

-- A state passes if each clause keeps it.
abbrev pub passes : Float64 → Map Text Text → Clauses → Entity → Bool
passes f args end state = true
passes f args (clause c clauses) state =
    is_true (keeps f args c state) && passes f args clauses state

filter_states-filter :
    (f : Float64) (p : Entity → Option Bool) (states r : Map Uuid Entity)
    → filter_states f p states ≡ some r
    → r ≡ filter (λ x. is_true (p x.1)) states
unfolding filter_states filter
filter_states-filter f p [] r e = ground (arith, e)
filter_states-filter f p ((id, s) ∷ states) r e = elim (Option-cases (p s)) [
  | inl n ↦ ground (arith, e, n)
  | inr (b, q) ↦ elim (Option-cases (filter_states f p states)) [
    | inl n ↦ ground (arith, e, n, q)
    | inr (m, g) ↦ ground (arith, e, q, g, filter_states-filter f p states m g)
  ]
]

-- Where no clause panics, the states that are left are those that pass every clause, in their
-- order: what a clause removes does not depend on the clauses before it.
pub filter_where_clauses-passes :
    (f : Float64) (args : Map Text Text) (clauses : Clauses) (states r : Map Uuid Entity)
    → filter_where_clauses f states args clauses ≡ some r
    → r ≡ filter (λ x. passes f args clauses x.1) states
unfolding filter_where_clauses
filter_where_clauses-passes f args end states r e = ground (arith, e) ∙ sym (filter-true states)
filter_where_clauses-passes f args (clause c clauses) states r e =
    elim (Option-cases (filter_states f (keeps f args c) states)) [
      | inl n ↦ ground (arith, e, n)
      | inr (m, g) ↦
          filter_where_clauses-passes f args clauses m r (ground (arith, e, g))
          ∙ ap (filter (λ x. passes f args clauses x.1))
              (filter_states-filter f (keeps f args c) states m g)
          ∙ filter-filter (λ x. passes f args clauses x.1) (λ x. is_true (keeps f args c x.1))
              states
    ]
