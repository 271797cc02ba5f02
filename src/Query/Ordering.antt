-- ===== src/Query/Ordering.antt =====
-- The comparison of ORDER in woori-db/src/core/query.rs: missing keys go first, and values that
-- cannot be compared count as `Less`.
pub mod Ascending
use Prim.Native.Nat.{Ordering}
use wooridb.Base.{Bool, true, false, Option, none, some, List, Text, text_key}
use wooridb.Base.Map.{get}
use wooridb.Base.Sorting.{sort_by}
use wooridb.Wql.Types.{Types, Entity, Uuid, Float64, partial_cmp}
use wooridb.Wql.Ast.{Order, asc, desc}

-- PartialOrd of Option
unfoldable pub option_cmp : Float64 → Option Types → Option Types → Option Ordering
unfolding partial_cmp
option_cmp f none none = some Ordering.eq
option_cmp f none (some b) = some Ordering.lt
option_cmp f (some a) none = some Ordering.gt
option_cmp f (some a) (some b) = partial_cmp f a b

-- cmp.unwrap_or(Ordering::Less) == Less
abbrev pub is_less : Option Ordering → Bool
is_less none = true
is_less (some Ordering.lt) = true
is_less (some Ordering.eq) = false
is_less (some Ordering.gt) = false

unfoldable pub goes_before : Float64 → Text → Order → Uuid × Entity → Uuid × Entity → Bool
unfolding option_cmp
goes_before f k asc a b = is_less (option_cmp f (get k a.1) (get k b.1))
goes_before f k desc a b = is_less (option_cmp f (get k b.1) (get k a.1))

unfoldable pub sort_states : Float64 → Text → Order → List (Uuid × Entity) → List (Uuid × Entity)
unfolding sort_by goes_before
sort_states f k ord = sort_by (goes_before f k ord)
