-- ===== src/Query/Plain/Answers.antt =====
-- No query shows a hash.
use wooridb.Base.{
  Bool, true, Option, none, some, List, [], Text, text_key, nat_key, all, ◌≡◌, refl, sym, ap,
}
use wooridb.Base.Map.{Map}
use wooridb.Wql.Types.{Uuid, Entity}
use wooridb.Wql.Ast.{
  Wql, Algebra, select, select_ids, select_when, select_when_range, select_where, check_value,
  relation_query, join as join_query, all as all_keys, keys, Relation, Queries, ToSelect, Clauses,
}
use wooridb.Model.{Error}
use wooridb.Host.{Host}
use wooridb.Server.{
  World, Outcome, ok, err, panic, Act, pure, fail, unwrap, or_fail, continue, ◌>>=◌,
}
use wooridb.Query.Response.{Response}
use wooridb.Query.States.{registries_to_states}
use wooridb.Query.Select.{
  select_all_with_id, select_keys_with_id, select_all, select_args, select_all_with_ids,
  select_keys_with_ids, select_id, select_ids as select_ids_with, select_states,
}
use wooridb.Query.When.{
  read_entity_range, read_entities_at, select_all_when_controller, select_keys_when_controller,
  select_all_id_when_controller, select_keys_id_when_controller, select_all_when_range_controller,
}
use wooridb.Query.Clauses.{
  select_where_controller, select_where as select_where_states, filter_where_clauses,
  generate_state, keys_to_select, args_of,
}
use wooridb.Query.Clauses.Meaning.{passes, filter_where_clauses-passes}
use wooridb.Query.CheckValue.{check_value_controller}
use wooridb.Query.Relations.{intersect, difference, union, relate, related, get_query_value}
use wooridb.Query.Join.{join, get_join_query_value}
use wooridb.Query.Handler.{wql_handler}
use wooridb.Query.Plain.{
  plain, all_plain, all_plain_options, plain_response, all-take, all-drop, all-filter,
}
use wooridb.Query.Plain.Pages.{filter_keys_and_hash-plain, states_of-plain, option_states-plain}
use wooridb.Query.Plain.Results.{
  dedup_states-plain, dedup_option_states-plain, get_result-plain, get_result_for_options-plain,
}
use wooridb.Query.Plain.Relations.{
  intersect_states-plain, difference_states-plain, union_states-plain,
}
use wooridb.Query.Plain.Lines.{holds, each_line-holds, entities_step-plain, range_step-plain}
use wooridb.Query.Plain.Joins.{table_plain, hash-plain, parse-plain}

-- Where the action ends well, its value passes the test.
record Gives {ℓ} {A : Type ℓ} (p : A → Bool) (m : Act A) : Type ℓ where
  at : (w : World) → holds p (m w).0 ≡ true

abbrev any_value {ℓ} : {A : Type ℓ} → A → Bool
any_value a = true

module _ {ℓ} {A B : Type ℓ} (p : A → Bool) (q : B → Bool) where
  continue-holds :
      (r : Outcome A) (f : A → Act B) (w : World)
      → holds p r ≡ true
      → ((a : A) → p a ≡ true → Gives q (f a))
      → holds q (continue r f w).0 ≡ true
  continue-holds (ok a) f w h k = (k a h).at w
  continue-holds (err e) f w h k = refl
  continue-holds panic f w h k = refl

  Gives-bind :
      (m : Act A) (f : A → Act B)
      → Gives p m
      → ((a : A) → p a ≡ true → Gives q (f a))
      → Gives q (m >>= f)
  unfolding ◌>>=◌
  Gives-bind m f g k = record { at = λ w. continue-holds (m w).0 f (m w).1 (g.at w) k }

module _ {ℓ} {A : Type ℓ} where
  any-holds : (r : Outcome A) → holds any_value r ≡ true
  any-holds (ok a) = refl
  any-holds (err e) = refl
  any-holds panic = refl

  Gives-any : (m : Act A) → Gives any_value m
  Gives-any m = record { at = λ w. any-holds (m w).0 }

module _ {ℓ} {A : Type ℓ} (p : A → Bool) where
  Gives-pure : (a : A) → p a ≡ true → Gives p (pure a)
  unfolding pure
  Gives-pure a h = record { at = λ w. h }

  Gives-fail : (e : Error) → Gives p (fail e)
  unfolding fail
  Gives-fail x = record { at = λ w. refl }

  Gives-value : (r : Outcome A) → holds p r ≡ true → Gives p (λ w. (r, w))
  Gives-value r h = record { at = λ w. h }

  Gives-unwrap : (o : Option A) → ((a : A) → o ≡ some a → p a ≡ true) → Gives p (unwrap o)
  unfolding unwrap
  Gives-unwrap none k = record { at = λ w. refl }
  Gives-unwrap (some a) k = record { at = λ w. k a refl }

  Gives-or_fail :
      (x : Error) (o : Option A) → ((a : A) → o ≡ some a → p a ≡ true) → Gives p (or_fail x o)
  unfolding or_fail
  Gives-or_fail x none k = record { at = λ w. refl }
  Gives-or_fail x (some a) k = record { at = λ w. k a refl }

module _ {ℓ} {A B : Type ℓ} (q : B → Bool) where
  -- A step of whose value nothing is used
  Gives-after : (m : Act A) (f : A → Act B) → ((a : A) → Gives q (f a)) → Gives q (m >>= f)
  Gives-after m f k = Gives-bind any_value q m f (Gives-any m) (λ a h. k a)

module _ (h : Host) where
  select_id-Gives :
      (entity : Text) (id : Uuid) (ks : Option (List Text))
      → Gives plain_response (select_id h entity id ks)
  unfolding select_id
  select_id-Gives entity id ks = Gives-after plain_response _ _ (λ registry.
      Gives-after plain_response _ _
        (λ state. Gives-pure plain_response _ (filter_keys_and_hash-plain state ks)))

  select_ids-Gives :
      (entity : Text) (ks : Option (List Text)) (ids : List Uuid) (functions : Map Text Algebra)
      → Gives plain_response (select_ids_with h entity ks ids functions)
  unfolding select_ids_with all
  select_ids-Gives entity ks ids functions = Gives-after plain_response _ _ (λ registries.
      Gives-bind all_plain_options plain_response _ _
        (Gives-unwrap all_plain_options _ (λ m e. option_states-plain h ks _ [] m refl e))
        (λ m a.
          Gives-bind all_plain_options plain_response _ _
            (Gives-unwrap all_plain_options _
              (λ r e. dedup_option_states-plain h m r functions a e))
            (λ r b. Gives-pure plain_response _ (get_result_for_options-plain h r functions _ b))))

  select_states-Gives :
      (entity : Text) (ks : Option (List Text)) (functions : Map Text Algebra)
      → Gives plain_response (select_states h entity ks functions)
  unfolding select_states registries_to_states
  select_states-Gives entity ks functions = Gives-after plain_response _ _ (λ registries.
      Gives-bind all_plain plain_response _ _
        (Gives-unwrap all_plain _ (λ m e. states_of-plain h ks _ m e))
        (λ m a.
          Gives-bind all_plain plain_response _ _
            (Gives-unwrap all_plain _ (λ r e. dedup_states-plain h m r functions a e))
            (λ r b. Gives-pure plain_response _ (get_result-plain h r functions _ b))))

  filtered-plain :
      (args : Map Text Text) (clauses : Clauses) (m r : Map Uuid Entity)
      → all_plain m ≡ true
      → filter_where_clauses h.float64 m args clauses ≡ some r
      → all_plain r ≡ true
  filtered-plain args clauses m r a e =
      rw (filter_where_clauses-passes h.float64 args clauses m r e)
        (all-filter (λ p. plain p.1) (λ x. passes h.float64 args clauses x.1) m a)

  states-Gives :
      (entity : Text) (args : ToSelect) (clauses : Clauses) (functions : Map Text Algebra)
      → Gives all_plain (select_where_states h entity args clauses functions)
  unfolding select_where_states generate_state
  states-Gives entity args clauses functions = Gives-after all_plain _ _ (λ registries.
      Gives-bind all_plain all_plain _ _
        (Gives-unwrap all_plain _ (λ m e. states_of-plain h (keys_to_select args) registries m e))
        (λ m a.
          Gives-bind all_plain all_plain _ _
            (Gives-unwrap all_plain _ (λ r e. filtered-plain (args_of clauses []) clauses m r a e))
            (λ r b. Gives-unwrap all_plain _ (λ x e.
              dedup_states-plain h _ x functions
                (all-take (λ p. plain p.1) _ _ (all-drop (λ p. plain p.1) _ r b)) e))))

  select_where-Gives :
      (entity : Text) (args : ToSelect) (clauses : Clauses) (functions : Map Text Algebra)
      → Gives plain_response (select_where_controller h entity args clauses functions)
  unfolding select_where_controller
  select_where-Gives entity args clauses functions =
      Gives-bind all_plain plain_response _ _ (states-Gives entity args clauses functions)
        (λ r b. Gives-pure plain_response _ (get_result-plain h r functions _ b))

  when_range-Gives :
      (entity : Text) (id : Uuid) (s e : Text)
      → Gives plain_response (select_all_when_range_controller h entity id s e)
  unfolding select_all_when_range_controller read_entity_range all
  when_range-Gives entity id s e = Gives-after plain_response _ _ (λ start_date.
      Gives-after plain_response _ _ (λ end_date.
        Gives-bind all_plain plain_response _ _
          (Gives-after all_plain _ _ (λ log. Gives-value all_plain _ (
            each_line-holds all_plain _ _ []
              (range_step-plain h entity (h.uuid_to_string id) start_date end_date) refl)))
          (λ m a. Gives-pure plain_response _ a)))

  entities_at-Gives :
      (entity log : Text) (ks : Option (List Text))
      → Gives all_plain (read_entities_at h entity log ks)
  unfolding read_entities_at all
  entities_at-Gives entity log ks = Gives-after all_plain _ _ (λ log.
      Gives-value all_plain _
        (each_line-holds all_plain _ _ [] (entities_step-plain h entity ks) refl))

  when_all-Gives :
      (entity date : Text) → Gives plain_response (select_all_when_controller h entity date)
  unfolding select_all_when_controller
  when_all-Gives entity date = Gives-after plain_response _ _ (λ d.
      Gives-bind all_plain plain_response _ _ (entities_at-Gives entity _ none)
        (λ m a. Gives-pure plain_response _ a))

  when_keys-Gives :
      (entity date : Text) (ks : List Text)
      → Gives plain_response (select_keys_when_controller h entity date ks)
  unfolding select_keys_when_controller
  when_keys-Gives entity date ks = Gives-after plain_response _ _ (λ d.
      Gives-bind all_plain plain_response _ _ (entities_at-Gives entity _ (some ks))
        (λ m a. Gives-pure plain_response _ a))

  when_id-Gives :
      (entity date : Text) (id : Uuid)
      → Gives plain_response (select_all_id_when_controller h entity date id)
  unfolding select_all_id_when_controller
  when_id-Gives entity date id = Gives-after plain_response _ _ (λ d.
      Gives-after plain_response _ _
        (λ m. Gives-pure plain_response _ (filter_keys_and_hash-plain m none)))

  when_keys_id-Gives :
      (entity date : Text) (ks : List Text) (id : Uuid)
      → Gives plain_response (select_keys_id_when_controller h entity date ks id)
  unfolding select_keys_id_when_controller
  when_keys_id-Gives entity date ks id = Gives-after plain_response _ _ (λ d.
      Gives-after plain_response _ _
        (λ m. Gives-pure plain_response _ (filter_keys_and_hash-plain m (some ks))))

  get_query_value-Gives : (q : Wql) → Gives plain_response (get_query_value h q)
  unfolding get_query_value select_all_with_id select_keys_with_id
  get_query_value-Gives (select entity all_keys (some id) functions) =
      select_id-Gives entity id none
  get_query_value-Gives (select entity (keys ks) (some id) functions) =
      select_id-Gives entity id (some ks)
  get_query_value-Gives (select_when entity all_keys (some id) date) = when_id-Gives entity date id
  get_query_value-Gives (select_when entity (keys ks) (some id) date) =
      when_keys_id-Gives entity date ks id
  get_query_value-Gives _ = Gives-fail plain_response _

  related-Gives :
      (r : Entity → Entity → Response) (a b : Response)
      → ((f s : Entity) → plain f ≡ true → plain s ≡ true → plain_response (r f s) ≡ true)
      → plain_response a ≡ true
      → plain_response b ≡ true
      → Gives plain_response (related r a b)
  unfolding related
  related-Gives r (Response.id f) (Response.id s) k pa pb =
      Gives-pure plain_response _ (k f s pa pb)
  related-Gives r _ _ k pa pb = Gives-fail plain_response _

  relate-Gives :
      (queries : Queries) (r : Entity → Entity → Response)
      → ((f s : Entity) → plain f ≡ true → plain s ≡ true → plain_response (r f s) ≡ true)
      → Gives plain_response (relate h queries r)
  unfolding relate
  relate-Gives queries r k = Gives-after plain_response _ _ (λ pair.
      Gives-bind plain_response plain_response _ _ (get_query_value-Gives pair.0) (λ a pa.
        Gives-bind plain_response plain_response _ _ (get_query_value-Gives pair.1)
          (λ b pb. related-Gives r a b k pa pb)))

  get_join_query_value-Gives : (q : Wql) → Gives plain_response (get_join_query_value h q)
  unfolding get_join_query_value select_all select_args select_all_with_ids select_keys_with_ids
  get_join_query_value-Gives (select entity all_keys none functions) =
      select_states-Gives entity none functions
  get_join_query_value-Gives (select entity (keys ks) none functions) =
      select_states-Gives entity (some ks) functions
  get_join_query_value-Gives (select_ids entity all_keys ids functions) =
      select_ids-Gives entity none ids functions
  get_join_query_value-Gives (select_ids entity (keys ks) ids functions) =
      select_ids-Gives entity (some ks) ids functions
  get_join_query_value-Gives (select_where entity args clauses functions) =
      select_where-Gives entity args clauses functions
  get_join_query_value-Gives _ = Gives-fail plain_response _

  join-Gives : (a b : Text × Text) (queries : Queries) → Gives plain_response (join h a b queries)
  unfolding join
  join-Gives entity_a entity_b queries = Gives-after plain_response _ _ (λ first.
      Gives-bind plain_response plain_response _ _ (get_join_query_value-Gives first) (λ a pa.
        Gives-after plain_response _ _ (λ second.
          Gives-bind plain_response plain_response _ _ (get_join_query_value-Gives second) (λ b pb.
            Gives-bind table_plain plain_response _ _
              (Gives-or_fail table_plain _ _ (λ t e. hash-plain h.float64 entity_b.1 b t pb e))
              (λ t pt.
                Gives-bind (all plain) plain_response _ _
                  (Gives-or_fail (all plain) _ _
                    (λ r e. parse-plain h.float64 a entity_a.1 entity_b t r pa pt e))
                  (λ r pr. Gives-pure plain_response _ pr))))))

  check_value-Gives :
      (entity : Text) (id : Uuid) (content : Map Text Text)
      → Gives plain_response (check_value_controller h entity id content)
  unfolding check_value_controller
  check_value-Gives entity id content = Gives-after plain_response _ _ (λ _.
      Gives-after plain_response _ _ (λ local_data.
        Gives-after plain_response _ _ (λ previous_entry. Gives-after plain_response _ _ (λ text.
          Gives-after plain_response _ _
            (λ s. Gives-after plain_response _ _ (λ results. Gives-pure plain_response _ refl))))))

  wql_handler-Gives : (q : Wql) → Gives plain_response (wql_handler h q)
  unfolding wql_handler select_all_with_id select_keys_with_id select_all select_args
      select_all_with_ids select_keys_with_ids intersect difference union
  wql_handler-Gives (select entity all_keys (some id) functions) = select_id-Gives entity id none
  wql_handler-Gives (select entity (keys ks) (some id) functions) =
      select_id-Gives entity id (some ks)
  wql_handler-Gives (select entity all_keys none functions) =
      select_states-Gives entity none functions
  wql_handler-Gives (select entity (keys ks) none functions) =
      select_states-Gives entity (some ks) functions
  wql_handler-Gives (select_ids entity all_keys ids functions) =
      select_ids-Gives entity none ids functions
  wql_handler-Gives (select_ids entity (keys ks) ids functions) =
      select_ids-Gives entity (some ks) ids functions
  wql_handler-Gives (select_when entity all_keys none date) = when_all-Gives entity date
  wql_handler-Gives (select_when entity (keys ks) none date) = when_keys-Gives entity date ks
  wql_handler-Gives (select_when entity all_keys (some id) date) = when_id-Gives entity date id
  wql_handler-Gives (select_when entity (keys ks) (some id) date) =
      when_keys_id-Gives entity date ks id
  wql_handler-Gives (select_when_range entity id s e) = when_range-Gives entity id s e
  wql_handler-Gives (select_where entity args clauses functions) =
      select_where-Gives entity args clauses functions
  wql_handler-Gives (check_value entity id content) = check_value-Gives entity id content
  wql_handler-Gives (relation_query queries Relation.intersect t) =
      relate-Gives queries _ (λ f s pf ps. intersect_states-plain h.float64 f s pf t ps)
  wql_handler-Gives (relation_query queries Relation.difference t) =
      relate-Gives queries _ (λ f s pf ps. difference_states-plain h.float64 f s pf t ps)
  wql_handler-Gives (relation_query queries Relation.union t) =
      relate-Gives queries _ (λ f s pf ps. union_states-plain h.float64 f s pf t ps)
  wql_handler-Gives (join_query a b queries) = join-Gives a b queries
  wql_handler-Gives _ = Gives-fail plain_response _

  -- Whatever the query, no state in its answer has a hash as the value of a key: what was encrypted
  -- stays in the store and in the logs. Hashes within a vector or a map are not looked at.
  pub wql_handler-plain :
      (q : Wql) (w v : World) (r : Response)
      → wql_handler h q w ≡ (ok r, v)
      → plain_response r ≡ true
  wql_handler-plain q w v r e =
      rw (sym (ap (λ x. holds plain_response x.0) e)) ((wql_handler-Gives q).at w)
