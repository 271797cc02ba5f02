-- ===== src/Tx/Handler.antt =====
-- `wql_handler`: the controller of each parsed query.
use wooridb.Base.{Option, List, Text}
use wooridb.Wql.Ast.{
  Wql, create_entity, insert, update_content, update_set, delete, match_update, evict,
}
use wooridb.Model.{select_bad_request}
use wooridb.Host.{Host}
use wooridb.Server.{World, Outcome, ok, Act, fail, ◌>>◌}
use wooridb.Tx.Steps.{TxResponse}
use wooridb.Tx.Create.{
  create_controller, evict_controller, create_unique_controller, create_encrypts_controller,
}
use wooridb.Tx.Insert.{insert_controller}
use wooridb.Tx.Update.{update_set_controller, update_content_controller}
use wooridb.Tx.MatchUpdate.{match_update_set_controller}
use wooridb.Tx.Delete.{delete_controller}

-- `let _ = controller.await`: an error is dropped, and a panic is not.
abbrev pub tolerant : Outcome (Unit {0}) × World → Outcome (Unit {0}) × World
tolerant (Outcome.err e, w) = (ok tt, w)
tolerant r = r

unfoldable pub ignore_error : Act (Unit {0}) → Act (Unit {0})
ignore_error m w = tolerant (m w)

module _ (h : Host) (uniques_log encrypts_log : Text → List Text → Option Text) where
  unfoldable pub tx_handler : Wql → Act TxResponse
  tx_handler (create_entity entity uniques encrypts) = do
    ignore_error (create_unique_controller h uniques_log entity uniques)
    ignore_error (create_encrypts_controller h encrypts_log entity encrypts)
    create_controller h entity
  tx_handler (delete entity uuid) = delete_controller h entity uuid
  tx_handler (insert entity content uuid) = insert_controller h entity content uuid
  tx_handler (update_content entity content uuid) = update_content_controller h entity content uuid
  tx_handler (update_set entity content uuid) = update_set_controller h entity content uuid
  tx_handler (match_update entity content uuid conditions) =
      match_update_set_controller h entity content uuid conditions
  tx_handler (evict entity uuid) = evict_controller h entity uuid
  tx_handler _ = fail select_bad_request
