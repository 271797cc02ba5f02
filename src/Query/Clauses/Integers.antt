-- ===== src/Query/Clauses/Integers.antt =====
-- WHERE with comparisons of integers: `filter_where_clauses` of woori-db/src/controllers/clauses.rs.
use wooridb.Base.{Bool, true, false, not, ◌&&◌, Option, some, List, [], ◌∷◌, Text, text_key}
use wooridb.Base.Int.{ℤ}
use wooridb.Base.Map.{Map, get}
use wooridb.Wql.Types.{Types, integer, Entity}
use wooridb.Wql.Ast.{
  Function, eq, g_eq, g, l_eq, l, not_eq, like, Clauses, end, clause, simple_comparison_function,
}
use wooridb.Query.Ordering.Ascending.{is_integer, below_ℤ}
use wooridb.Query.Clauses.{key_of}

-- A comparison of the value of a key, or of the key that an argument stands for.
abbrev pub Comparison : Type 0
Comparison = Function × Text × ℤ

abbrev pub comparisons : List Comparison → Clauses
comparisons [] = end
comparisons ((fn, k, n) ∷ cs) =
    clause (simple_comparison_function fn k (integer n)) (comparisons cs)

-- What a comparison means of a stored integer v and the integer n of the query.
abbrev pub relates : Function → ℤ → ℤ → Bool
relates eq v n = not (below_ℤ v n) && not (below_ℤ n v)
relates not_eq v n = not (not (below_ℤ v n) && not (below_ℤ n v))
relates g_eq v n = not (below_ℤ v n)
relates g v n = below_ℤ n v
relates l_eq v n = not (below_ℤ n v)
relates l v n = below_ℤ v n
relates like v n = false
relates _ v n = true

-- A missing value passes.
abbrev pub relates_value : Function → Option Types → ℤ → Bool
relates_value fn (some (integer v)) n = relates fn v n
relates_value fn _ n = true

abbrev pub meets : Map Text Text → List Comparison → Entity → Bool
meets args [] state = true
meets args ((fn, k, n) ∷ cs) state =
    relates_value fn (get (key_of args k) state) n && meets args cs state

-- The keys that are compared have integers or no values.
abbrev pub are_integers : Map Text Text → List Comparison → Entity → Bool
are_integers args [] state = true
are_integers args ((fn, k, n) ∷ cs) state =
    is_integer (get (key_of args k) state) && are_integers args cs state
