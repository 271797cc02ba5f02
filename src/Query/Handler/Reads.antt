-- ===== src/Query/Handler/Reads.antt =====
-- Queries change nothing.
use wooridb.Base.{
  Bool, true, false, Option, none, some, List, [], ◌∷◌, Option-cases, inl, inr, Text, text_key,
  nat_key, ◌≡◌, refl, ◌∙◌, arith, if◌then◌else◌,
}
use wooridb.Wql.Types.{Uuid, Entity, DateTime}
use wooridb.Wql.Ast.{
  Wql, Algebra, select, select_ids, select_when, select_when_range, select_where, check_value,
  relation_query, join as join_query, all, keys, Relation, Queries, ToSelect, Clauses,
}
use wooridb.Model.{Error, DataRegister, io}
use wooridb.Host.{Host}
use wooridb.Base.Map.{Map, get}
use wooridb.Server.{
  World, Outcome, ok, err, panic, Act, pure, fail, unwrap, or_fail, continue, ◌>>=◌,
}
use wooridb.Actors.Files.{in_text, read_log, read_slice}
use wooridb.Actors.State.{state}
use wooridb.Tx.Steps.{lock_local}
use wooridb.Query.Response.{Response}
use wooridb.Query.Select.{
  get_registries, get_registry, select_all_with_id, select_keys_with_id, select_all, select_args,
  select_all_with_ids, select_keys_with_ids, select_id, select_ids as select_ids_with,
  select_states,
}
use wooridb.Query.When.{
  read_date_log, read_entity_range, read_entities_at, read_entity_id_at, select_all_when_controller,
  select_keys_when_controller, select_all_id_when_controller, select_keys_id_when_controller,
  select_all_when_range_controller,
}
use wooridb.Query.Clauses.{select_where_controller, select_where as select_where_states}
use wooridb.Query.CheckValue.{
  check_value_controller, check_encrypted, clone_local, refuse_any, non_encrypt_keys,
}
use wooridb.Query.Relations.{intersect, difference, union, relate, related, get_query_value}
use wooridb.Query.Join.{join, get_join_query_value}
use wooridb.Query.Handler.{wql_handler}

-- The state afterwards is the state before, whatever the outcome.
pub record Reads {ℓ} {A : Type ℓ} (m : Act A) : Type ℓ where
  pub at : (w : World) → (m w).1 ≡ w

module _ {ℓ} {A B : Type ℓ} where
  continue-Reads :
      (r : Outcome A) (f : A → Act B) (w : World) → ((a : A) → Reads (f a)) → (continue r f w).1 ≡ w
  continue-Reads (ok a) f w k = (k a).at w
  continue-Reads (err e) f w k = refl
  continue-Reads panic f w k = refl

  pub Reads-bind : (m : Act A) (f : A → Act B) → Reads m → ((a : A) → Reads (f a)) → Reads (m >>= f)
  unfolding ◌>>=◌
  Reads-bind m f r k = record { at = λ w. continue-Reads (m w).0 f (m w).1 k ∙ r.at w }

module _ {ℓ} {A : Type ℓ} where
  pub Reads-pure : (a : A) → Reads (pure a)
  unfolding pure
  Reads-pure a = record { at = λ w. refl }

  pub Reads-fail : (e : Error) → Reads (fail {A = A} e)
  unfolding fail
  Reads-fail e = record { at = λ w. refl }

  pub Reads-value : (r : Outcome A) → Reads (λ w. (r, w))
  Reads-value r = record { at = λ w. refl }

  pub Reads-unwrap : (o : Option A) → Reads (unwrap o)
  unfolding unwrap
  Reads-unwrap none = record { at = λ w. refl }
  Reads-unwrap (some a) = record { at = λ w. refl }

  pub Reads-or_fail : (e : Error) (o : Option A) → Reads (or_fail e o)
  unfolding or_fail
  Reads-or_fail e none = record { at = λ w. refl }
  Reads-or_fail e (some a) = record { at = λ w. refl }

  pub Reads-if : (b : Bool) (m n : Act A) → Reads m → Reads n → Reads (if b then m else n)
  Reads-if true m n rm rn = rm
  Reads-if false m n rm rn = rn

ruleset reads_rules =
    (Reads-bind, Reads-pure, Reads-fail, Reads-unwrap, Reads-or_fail, Reads-if, Reads-value)

lock_local-Reads : Reads lock_local
unfolding lock_local
lock_local-Reads = record { at = λ w. ground arith }

get_registries-Reads : (entity : Text) → Reads (get_registries entity)
unfolding get_registries
get_registries-Reads entity = search (reads_rules, lock_local-Reads)

get_registry-Reads : (entity : Text) (id : Uuid) → Reads (get_registry entity id)
unfolding get_registry
get_registry-Reads entity id = search (reads_rules, get_registries-Reads)

read_log-Reads : (h : Host) (r : DataRegister) → Reads (read_log h r)
unfolding read_log
read_log-Reads h r = record { at = λ w. (Reads-or_fail io (in_text h (read_slice r w.disk))).at w }

read_date_log-Reads : (t : Text) → Reads (read_date_log t)
unfolding read_date_log
read_date_log-Reads t = record { at = λ w. (Reads-or_fail io (get t w.disk.logs)).at w }

ruleset read_rules = (
  reads_rules, lock_local-Reads, get_registries-Reads, get_registry-Reads, read_log-Reads,
  read_date_log-Reads,
)

module _ (h : Host) where
  select_id-Reads :
      (entity : Text) (id : Uuid) (ks : Option (List Text)) → Reads (select_id h entity id ks)
  unfolding select_id
  select_id-Reads entity id ks = search read_rules

  select_ids-Reads :
      (entity : Text) (ks : Option (List Text)) (ids : List Uuid) (functions : Map Text Algebra)
      → Reads (select_ids_with h entity ks ids functions)
  unfolding select_ids_with
  select_ids-Reads entity ks ids functions = search read_rules

  select_states-Reads :
      (entity : Text) (ks : Option (List Text)) (functions : Map Text Algebra)
      → Reads (select_states h entity ks functions)
  unfolding select_states
  select_states-Reads entity ks functions = search read_rules

  select_where-Reads :
      (entity : Text) (args : ToSelect) (clauses : Clauses) (functions : Map Text Algebra)
      → Reads (select_where_controller h entity args clauses functions)
  unfolding select_where_controller select_where_states
  select_where-Reads entity args clauses functions = search read_rules depth 20

  read_entity_range-Reads :
      (entity : Text) (id : Uuid) (s e : DateTime) (t : Text)
      → Reads (read_entity_range h entity id s e t)
  unfolding read_entity_range
  read_entity_range-Reads entity id s e t = search read_rules

  read_entities_at-Reads :
      (entity t : Text) (ks : Option (List Text)) → Reads (read_entities_at h entity t ks)
  unfolding read_entities_at
  read_entities_at-Reads entity t ks = search read_rules

  read_entity_id_at-Reads :
      (entity : Text) (id : Uuid) (t : Text) → Reads (read_entity_id_at h entity id t)
  unfolding read_entity_id_at
  read_entity_id_at-Reads entity id t = search read_rules

  ruleset when_rules =
      (read_rules, read_entity_range-Reads, read_entities_at-Reads, read_entity_id_at-Reads)

  when_range-Reads :
      (entity : Text) (id : Uuid) (s e : Text)
      → Reads (select_all_when_range_controller h entity id s e)
  unfolding select_all_when_range_controller
  when_range-Reads entity id s e = search when_rules

  when_all-Reads : (entity date : Text) → Reads (select_all_when_controller h entity date)
  unfolding select_all_when_controller
  when_all-Reads entity date = search when_rules

  when_keys-Reads :
      (entity date : Text) (ks : List Text) → Reads (select_keys_when_controller h entity date ks)
  unfolding select_keys_when_controller
  when_keys-Reads entity date ks = search when_rules

  when_id-Reads :
      (entity date : Text) (id : Uuid) → Reads (select_all_id_when_controller h entity date id)
  unfolding select_all_id_when_controller
  when_id-Reads entity date id = search when_rules

  when_keys_id-Reads :
      (entity date : Text) (ks : List Text) (id : Uuid)
      → Reads (select_keys_id_when_controller h entity date ks id)
  unfolding select_keys_id_when_controller
  when_keys_id-Reads entity date ks id = search when_rules

  get_query_value-Reads : (q : Wql) → Reads (get_query_value h q)
  unfolding get_query_value select_all_with_id select_keys_with_id
  get_query_value-Reads (select entity all (some id) functions) = select_id-Reads entity id none
  get_query_value-Reads (select entity (keys ks) (some id) functions) =
      select_id-Reads entity id (some ks)
  get_query_value-Reads (select_when entity all (some id) date) = when_id-Reads entity date id
  get_query_value-Reads (select_when entity (keys ks) (some id) date) =
      when_keys_id-Reads entity date ks id
  get_query_value-Reads _ = Reads-fail _

  related-Reads : (r : Entity → Entity → Response) (a b : Response) → Reads (related r a b)
  unfolding related
  related-Reads r (Response.id f) (Response.id s) = Reads-pure _
  related-Reads r _ _ = Reads-fail _

  relate-Reads : (queries : Queries) (r : Entity → Entity → Response) → Reads (relate h queries r)
  unfolding relate
  relate-Reads queries r = search (reads_rules, get_query_value-Reads, related-Reads)

  get_join_query_value-Reads : (q : Wql) → Reads (get_join_query_value h q)
  unfolding get_join_query_value select_all select_args select_all_with_ids select_keys_with_ids
  get_join_query_value-Reads (select entity all none functions) =
      select_states-Reads entity none functions
  get_join_query_value-Reads (select entity (keys ks) none functions) =
      select_states-Reads entity (some ks) functions
  get_join_query_value-Reads (select_ids entity all ids functions) =
      select_ids-Reads entity none ids functions
  get_join_query_value-Reads (select_ids entity (keys ks) ids functions) =
      select_ids-Reads entity (some ks) ids functions
  get_join_query_value-Reads (select_where entity args clauses functions) =
      select_where-Reads entity args clauses functions
  get_join_query_value-Reads _ = Reads-fail _

  join-Reads : (a b : Text × Text) (queries : Queries) → Reads (join h a b queries)
  unfolding join
  join-Reads a b queries = search (reads_rules, get_join_query_value-Reads) depth 20

  refuse_any-Reads : (ks : List Text) → Reads (refuse_any ks)
  refuse_any-Reads [] = Reads-pure tt
  refuse_any-Reads (k ∷ r) = Reads-fail _

  check_encrypted-Reads :
      (entity : Text) (content : Map Text Text) → Reads (check_encrypted entity content)
  unfolding check_encrypted
  check_encrypted-Reads entity content = record {
    at = λ w. elim (Option-cases (get entity w.encryption)) [
      | inl n ↦ ground arith
      | inr (ks, e) ↦ ground (arith, (refuse_any-Reads (non_encrypt_keys ks content)).at w)
    ];
  }

  clone_local-Reads : (entity : Text) → Reads (clone_local entity)
  unfolding clone_local
  clone_local-Reads entity = search read_rules

  state-Reads : (t : Text) → Reads (state h t)
  unfolding state
  state-Reads t = search reads_rules

  check_value-Reads :
      (entity : Text) (id : Uuid) (content : Map Text Text)
      → Reads (check_value_controller h entity id content)
  unfolding check_value_controller
  check_value-Reads entity id content =
      search (read_rules, check_encrypted-Reads, clone_local-Reads, state-Reads) depth 20

  wql_handler-Reads : (q : Wql) → Reads (wql_handler h q)
  unfolding wql_handler select_all_with_id select_keys_with_id select_all select_args
      select_all_with_ids select_keys_with_ids intersect difference union
  wql_handler-Reads (select entity all (some id) functions) = select_id-Reads entity id none
  wql_handler-Reads (select entity (keys ks) (some id) functions) =
      select_id-Reads entity id (some ks)
  wql_handler-Reads (select entity all none functions) = select_states-Reads entity none functions
  wql_handler-Reads (select entity (keys ks) none functions) =
      select_states-Reads entity (some ks) functions
  wql_handler-Reads (select_ids entity all ids functions) =
      select_ids-Reads entity none ids functions
  wql_handler-Reads (select_ids entity (keys ks) ids functions) =
      select_ids-Reads entity (some ks) ids functions
  wql_handler-Reads (select_when entity all none date) = when_all-Reads entity date
  wql_handler-Reads (select_when entity (keys ks) none date) = when_keys-Reads entity date ks
  wql_handler-Reads (select_when entity all (some id) date) = when_id-Reads entity date id
  wql_handler-Reads (select_when entity (keys ks) (some id) date) =
      when_keys_id-Reads entity date ks id
  wql_handler-Reads (select_when_range entity id s e) = when_range-Reads entity id s e
  wql_handler-Reads (select_where entity args clauses functions) =
      select_where-Reads entity args clauses functions
  wql_handler-Reads (check_value entity id content) = check_value-Reads entity id content
  wql_handler-Reads (relation_query queries Relation.intersect t) = relate-Reads queries _
  wql_handler-Reads (relation_query queries Relation.difference t) = relate-Reads queries _
  wql_handler-Reads (relation_query queries Relation.union t) = relate-Reads queries _
  wql_handler-Reads (join_query a b queries) = join-Reads a b queries
  wql_handler-Reads _ = Reads-fail _

  -- Whatever the query and however it ends, errors and panics included, the store, the logs and
  -- the locks are as they were.
  pub wql_handler-reads : (q : Wql) (w : World) → (wql_handler h q w).1 ≡ w
  wql_handler-reads q w = (wql_handler-Reads q).at w
