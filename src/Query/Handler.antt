-- ===== src/Query/Handler.antt =====
-- `wql_handler` of woori-db/src/controllers/query.rs: the controller of each parsed query. The
-- answer's text is not modelled.
pub mod Reads
use wooridb.Base.{Option, none, some, List, Text}
use wooridb.Wql.Ast.{
  Wql, select, select_ids, select_when, select_when_range, select_where, check_value,
  relation_query, join as join_query, all, keys, Relation,
}
use wooridb.Model.{non_select_query}
use wooridb.Host.{Host}
use wooridb.Server.{Act, fail}
use wooridb.Query.Response.{Response}
use wooridb.Query.Select.{
  select_all_with_id, select_keys_with_id, select_all, select_args, select_all_with_ids,
  select_keys_with_ids,
}
use wooridb.Query.When.{
  select_all_when_controller, select_keys_when_controller, select_all_id_when_controller,
  select_keys_id_when_controller, select_all_when_range_controller,
}
use wooridb.Query.Clauses.{select_where_controller}
use wooridb.Query.CheckValue.{check_value_controller}
use wooridb.Query.Relations.{intersect, difference, union}
use wooridb.Query.Join.{join}

module _ (h : Host) where
  unfoldable pub wql_handler : Wql → Act Response
  wql_handler (select entity all (some id) functions) = select_all_with_id h entity id
  wql_handler (select entity (keys ks) (some id) functions) = select_keys_with_id h entity id ks
  wql_handler (select entity all none functions) = select_all h entity functions
  wql_handler (select entity (keys ks) none functions) = select_args h entity ks functions
  wql_handler (select_ids entity all ids functions) = select_all_with_ids h entity ids functions
  wql_handler (select_ids entity (keys ks) ids functions) =
      select_keys_with_ids h entity ks ids functions
  wql_handler (select_when entity all none date) = select_all_when_controller h entity date
  wql_handler (select_when entity (keys ks) none date) =
      select_keys_when_controller h entity date ks
  wql_handler (select_when entity all (some id) date) =
      select_all_id_when_controller h entity date id
  wql_handler (select_when entity (keys ks) (some id) date) =
      select_keys_id_when_controller h entity date ks id
  wql_handler (select_when_range entity id start_date end_date) =
      select_all_when_range_controller h entity id start_date end_date
  wql_handler (select_where entity args_to_select clauses functions) =
      select_where_controller h entity args_to_select clauses functions
  wql_handler (check_value entity id content) = check_value_controller h entity id content
  wql_handler (relation_query queries Relation.intersect t) = intersect h queries t
  wql_handler (relation_query queries Relation.difference t) = difference h queries t
  wql_handler (relation_query queries Relation.union t) = union h queries t
  wql_handler (join_query entity_a entity_b queries) = join h entity_a entity_b queries
  wql_handler _ = fail non_select_query
