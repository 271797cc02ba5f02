-- ===== src/Tx/Refusals.antt =====
-- Transactions that woori-db/src/controllers/tx.rs refuses.
use wooridb.Base.{true, ◌≡◌, refl, some, Option, none, List, Text, text, text_key, nat_key, arith}
use wooridb.Base.Map.{contains_key}
use wooridb.Model.{Error, key_tx_time_not_allowed}
use wooridb.Host.{Host}
use wooridb.Wql.Types.{Entity}
use wooridb.Wql.Ast.{Wql}
use wooridb.Server.{World, err, Act, ◌>>=◌}
use wooridb.Tx.Steps.{tx_time}
use wooridb.Tx.Insert.{insert_controller}
use wooridb.Tx.Update.{update_set_controller, update_content_controller}
use wooridb.Tx.MatchUpdate.{match_update_set_controller}
use wooridb.Tx.Handler.{tx_handler}

module _ {ℓ κ} {A : Type ℓ} {B : Type κ} where
  bind-err :
      (m : Act A) (f : A → Act B) (w v : World) (x : Error)
      → m w ≡ (err x, v)
      → (m >>= f) w ≡ (err x, v)
  unfolding ◌>>=◌
  bind-err m f w v x e = rw e refl

tx_time-refused :
    (content : Entity) (w : World)
    → contains_key (text "tx_time") content ≡ true
    → tx_time content w ≡ (err key_tx_time_not_allowed, w)
unfolding tx_time
tx_time-refused content w y = rw y refl

-- The contents of a query.
abbrev pub content_of : Wql → Option Entity
content_of (Wql.insert entity content id) = some content
content_of (Wql.update_set entity content id) = some content
content_of (Wql.update_content entity content id) = some content
content_of (Wql.match_update entity content id conditions) = some content
content_of _ = none

module _ (h : Host) where
  -- Every query whose content gives `tx_time` is refused, and the state is as it was.
  pub tx_handler-tx_time :
      (uniques_log encrypts_log : Text → List Text → Option Text) (q : Wql) (w : World)
      (content : Entity)
      → content_of q ≡ some content
      → contains_key (text "tx_time") content ≡ true
      → tx_handler h uniques_log encrypts_log q w ≡ (err key_tx_time_not_allowed, w)
  unfolding tx_handler insert_controller update_set_controller update_content_controller
      match_update_set_controller
  tx_handler-tx_time ul el (Wql.insert entity c id) w content p y =
      bind-err _ _ w w _ (tx_time-refused c w (ground arith))
  tx_handler-tx_time ul el (Wql.update_set entity c id) w content p y =
      bind-err _ _ w w _ (tx_time-refused c w (ground arith))
  tx_handler-tx_time ul el (Wql.update_content entity c id) w content p y =
      bind-err _ _ w w _ (tx_time-refused c w (ground arith))
  tx_handler-tx_time ul el (Wql.match_update entity c id conditions) w content p y =
      bind-err _ _ w w _ (tx_time-refused c w (ground arith))
  tx_handler-tx_time ul el _ w content p y = cc
