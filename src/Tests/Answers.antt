-- ===== src/Tests/Answers.antt =====
-- Queries on the sample server.
use wooridb.Base.{
  none, some, List, [], ◌∷◌, Text, text, text_eq, all, filter, ◌≡◌, refl, true, false, text_key,
  nat_key, arith, if◌then◌else◌,
}
use wooridb.Base.Map.{Map, get, contains_key, is_some}
use wooridb.Base.Int.{pos}
use wooridb.Base.Sorting.{Ascends}
use wooridb.Base.Strings.{starts_with, ends_with, has_part, without}
use wooridb.Wql.Types.{Entity, Uuid, string, integer, hash, is_hash}
use wooridb.Wql.Ast.{
  Wql, select, all as all_keys, Algebra, dedup, order_by, group_by, asc, Clauses, end, clause,
  simple_comparison_function, value_attribution, g_eq, key,
}
use wooridb.Model.{EntityHistoryInfo}
use wooridb.Server.{World, ok, ◌>>=◌, pure, unwrap, or_fail}
use wooridb.Query.Response.{Response}
use wooridb.Query.States.{filter_keys_and_hash}
use wooridb.Query.Dedup.{dedup_states, dedup_key, is_nil_form, value_or_nil}
use wooridb.Query.Dedup.Firsts.{firsts, dedup_value, is_candidate, dedup_states-firsts}
use wooridb.Query.Ordering.Ascending.{goes_first}
use wooridb.Query.Result.{get_result_after_manipulation}
use wooridb.Query.Result.Conserved.{states_in, get_result-Perm, get_result-Ascends}
use wooridb.Query.Select.{get_registries, get_registry, select_id, select_all_with_id}
use wooridb.Query.Clauses.{like_where, like_or}
use wooridb.Query.Clauses.Integers.{Comparison}
use wooridb.Query.Clauses.Like.{like_where-has_part}
use wooridb.Query.Relations.{intersect_states, difference_states, union_states}
use wooridb.Query.Relations.Keys.{or_else, get-relations}
use wooridb.Query.Join.{
  Table, joinable, values_of, hash as hash_states, hash_loop, push, parse, naming,
}
use wooridb.Query.Join.Nested.{nested, parse-hash}
use wooridb.Query.CheckValue.{filter_state, verify, verify_encryption}
use wooridb.Query.CheckValue.Answers.{answer_to, verify_encryption-answers}
use wooridb.Query.History.{history}
use wooridb.Query.Handler.{wql_handler}
use wooridb.Query.Handler.Reads.{wql_handler-reads}
use wooridb.Query.Plain.{plain_response}
use wooridb.Query.Plain.Answers.{wql_handler-plain}
use wooridb.Tx.Steps.{lock_local}
use wooridb.Tests.Sample.{sample_host, sample_world, sample_disk, floats, day}
use mathlib.Core.List.{Perm}

abbrev of_user : Wql
of_user = select (text "user") all_keys (some 3) []

abbrev old_state : Entity
old_state = (text "name", string (text "old")) ∷ []

wql_handler-plain_example : plain_response (Response.id old_state) ≡ true
unfolding wql_handler select_all_with_id select_id get_registry get_registries lock_local ◌>>=◌ pure
    unwrap or_fail get text_eq filter_keys_and_hash is_hash
wql_handler-plain_example =
    wql_handler-plain sample_host of_user sample_world sample_world (Response.id old_state) refl

wql_handler-reads_example : (wql_handler sample_host of_user sample_world).1 ≡ sample_world
wql_handler-reads_example = wql_handler-reads sample_host of_user sample_world

-- Two lists of states with a value in common
abbrev pets : Map Uuid Entity
pets =
    (3, (text "of", string (text "x")) ∷ (text "age", integer (pos 2)) ∷ [])
    ∷ (4, (text "of", string (text "y")) ∷ (text "age", integer (pos 1)) ∷ [])
    ∷ (8, (text "of", string (text "x")) ∷ [])
    ∷ []

abbrev owners : Map Uuid Entity
owners = (5, (text "id", string (text "x")) ∷ (text "age", integer (pos 40)) ∷ []) ∷ []

abbrev owner_table : Table
owner_table =
    (string (text "x"), ((text "id", string (text "x")) ∷ (text "age", integer (pos 40)) ∷ []) ∷ [])
    ∷ []

parse-hash_example :
    parse floats (Response.all pets) (text "of") (text "owner", text "id") owner_table
    ≡ some (
        nested floats
          (naming (Response.all pets) (text "owner"))
          (text "of")
          (text "id")
          (values_of pets)
          (values_of owners))
unfolding joinable values_of hash_states hash_loop push value_or_nil get text_eq
parse-hash_example =
    parse-hash floats (Response.all pets) (Response.all owners) (text "of") (text "owner")
      (text "id") (values_of pets) (values_of owners) owner_table refl refl (refl, tt) refl

abbrev adults : Clauses
adults =
    clause (value_attribution (text "pet") (text "age") (text "?a"))
      (clause (simple_comparison_function g_eq (text "?a") (integer (pos 2))) end)

abbrev args : Map Text Text
args = (text "?a", text "age") ∷ []

abbrev kept_pets : Map Uuid Entity
kept_pets =
    (3, (text "of", string (text "x")) ∷ (text "age", integer (pos 2)) ∷ [])
    ∷ (8, (text "of", string (text "x")) ∷ [])
    ∷ []

like_where-has_part_example :
    (like_where (string (text "cat")) (string (text "a%"))
      ≡ has_part (without b'%' (text "a%")) (text "cat"))
    × (starts_with (text "%") (text "a%") ≡ false
        → ends_with (text "%") (text "a%") ≡ true
        → like_or (string (text "cat")) (string (text "a%"))
          ≡ starts_with (without b'%' (text "a%")) (text "cat"))
like_where-has_part_example = like_where-has_part (text "cat") (text "a%")

dedup_states-firsts_example :
    dedup_states sample_host pets ((text "DEDUP", dedup (text "of")) ∷ [])
    ≡ some (
        firsts
          (dedup_value sample_host (text "of"))
          (filter (λ p. is_candidate floats (text "of") (text "of") p.1) pets))
unfolding dedup_key is_nil_form starts_with get text_eq
dedup_states-firsts_example =
    dedup_states-firsts sample_host pets ((text "DEDUP", dedup (text "of")) ∷ []) (text "of")
      (text "of") refl refl

abbrev by_owner : Map Text Algebra
by_owner = (text "GROUP", group_by (text "of")) ∷ []

get_result-Perm_example :
    Perm (states_in (get_result_after_manipulation sample_host pets by_owner true)) pets
get_result-Perm_example =
    get_result-Perm sample_host pets by_owner true (omega arith, (omega arith, tt))

abbrev by_age : Map Text Algebra
by_age = (text "ORDER", order_by (text "age") asc) ∷ []

get_result-Ascends_example :
    (sorted : List (Uuid × Entity)) × (get_result_after_manipulation sample_host pets by_age false
      ≡ Response.order sorted)
    × Perm sorted pets
    × Ascends (goes_first (text "age") asc) sorted
unfolding get text_eq
get_result-Ascends_example =
    get_result-Ascends sample_host pets by_age (text "age") asc refl refl (refl, (refl, (refl, tt)))

abbrev day_lines : Text
day_lines = text "CREATE_ENTITY|user;INSERT|now|id|user|x;"

abbrev insert_fields : List Text
insert_fields = text "now" ∷ text "id" ∷ text "user" ∷ text "x" ∷ []

abbrev logged : World
logged = record sample_world { disk = record sample_disk { logs = (day, day_lines) ∷ [] } }

abbrev pin_state : Entity
pin_state = (text "pin", hash (text "#0000")) ∷ []

abbrev pin : Map Text Text
pin = (text "pin", text "0000") ∷ []

abbrev insert_line : Text
insert_line = text "INSERT|now|id|user|x;"

abbrev whole : EntityHistoryInfo
whole = record {
  entity_key = text "user";
  entity_id = 3;
  start_datetime = none;
  end_datetime = none;
}

abbrev x_state : Entity
x_state = (text "read", string (text "x")) ∷ []

read_line : history sample_host insert_line sample_world ≡ (ok (x_state, 5, none), sample_world)
unfolding history
read_line = refl

abbrev cat : Entity
cat = (text "name", string (text "Tom")) ∷ (text "age", integer (pos 3)) ∷ []

abbrev dog : Entity
dog = (text "age", integer (pos 5)) ∷ (text "size", integer (pos 9)) ∷ []

get-relations_example :
    (get (text "age") (intersect_states floats key cat dog)
      ≡ (if contains_key (text "age") dog then get (text "age") cat else none))
    × (get (text "age") (difference_states floats key cat dog)
        ≡ (if contains_key (text "age") dog then none else get (text "age") cat))
    × (get (text "age") (union_states floats key cat dog)
        ≡ or_else (get (text "age") cat) (get (text "age") dog))
unfolding get text_eq
get-relations_example = get-relations floats cat dog (text "age") (refl, (refl, tt))

verify_encryption-answers_example :
    get (text "pin") ((text "pin", true) ∷ [])
    ≡ answer_to sample_host (get (text "pin") pin_state) (text "0000")
unfolding verify_encryption filter_state verify value_or_nil get text_eq contains_key is_some
verify_encryption-answers_example =
    verify_encryption-answers sample_host pin_state pin ((text "pin", true) ∷ []) (text "pin")
      (text "0000") refl refl

abbrev from_two : List Comparison
from_two = (g_eq, text "?a", pos 2) ∷ []
