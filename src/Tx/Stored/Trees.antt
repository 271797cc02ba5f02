-- ===== src/Tx/Stored/Trees.antt =====
-- CREATE ENTITY and EVICT that succeed, and the state that UPDATE SET builds.
use wooridb.Base.{
  ◌≡◌, refl, sym, ap, ◌∙◌, some, Option, none, Text, text_key, text_eq, text_eq_iff, nat_key, [],
  ◌∷◌, if◌then◌else◌, arith,
}
use wooridb.Base.Map.{get, get-insert, get-remove, insert, remove, contains_key, is_some}
use wooridb.Model.{LocalContext}
use wooridb.Host.{Host}
use wooridb.Wql.Types.{Entity, Types}
use wooridb.Server.{World, ok, ◌>>=◌}
use wooridb.Actors.Content.Merging.{HasDistinctKeys}
use wooridb.Tx.Steps.{TxResponse, lock_local, put_local}
use wooridb.Tx.Create.{create_tree, create_controller, remove_tree, evict_controller}
use wooridb.Tx.Update.{set_states}
use wooridb.Tx.Rules.{Keeps-send, send-ok, Keeps-gets, bind-ok, bind-ok_same}
use wooridb.Tx.Rules.Calm.{send_local_data-Keeps}
use wooridb.Tx.Stored.Steps.{pure-ok}
use wooridb.Tx.Stored.Commit.{write_to_log-ok, restart_if_empty-ok, advance_counter-ok}

create_tree-ok :
    (entity : Text) (w v : World) (m : LocalContext)
    → create_tree entity w ≡ (ok m, v)
    → (get entity w.local ≡ none) × (v.local ≡ insert entity [] w.local)
unfolding create_tree lock_local put_local ◌>>=◌ contains_key is_some
create_tree-ok entity w v m e = (ground arith, ground arith)

remove_tree-ok :
    (entity : Text) (w v : World) (m : LocalContext)
    → remove_tree entity w ≡ (ok m, v)
    → v.local ≡ remove entity w.local
unfolding remove_tree lock_local put_local ◌>>=◌
remove_tree-ok entity w v m e = ground arith

module _ (h : Host) where
  -- CREATE ENTITY that succeeds: the entity was not there, and has now an empty tree, beside the
  -- trees of before.
  pub create_controller-creates :
      (entity other : Text) (w v : World) (resp : TxResponse)
      → create_controller h entity w ≡ (ok resp, v)
      → (get entity w.local ≡ none)
        × (get other v.local ≡ (if text_eq entity other then some [] else get other w.local))
  unfolding create_controller
  create_controller-creates entity other w v resp e = bind-ok _ _ e (λ m w1 p1 e1.
      bind-ok_same (Keeps-send _ (send_local_data-Keeps h m)) e1 (λ _ w2 p2 s2 e2.
        bind-ok _ _ e2 (λ r w3 p3 e3. bind-ok _ _ e3 (λ o w4 p4 e4. bind-ok _ _ e4 (λ _ w5 p5 e5.
          let (fresh, l1) = create_tree-ok entity w w1 m p1 in
          let (_, (_, _, _, _, l3, _)) = write_to_log-ok h _ w2 w3 r (send-ok _ p3) in
          let (_, _, _, l4, _) = restart_if_empty-ok h r.1 0 w3 w4 o p4 in
          let (_, _, l5, _) = advance_counter-ok h r.0 w4 w5 p5 in
          let (_, pv) = pure-ok _ resp w5 v e5 in
          (
            fresh,
            ap (get other) (ap (λ x. x.local) (sym pv) ∙ l5 ∙ l4 ∙ l3 ∙ s2.local ∙ l1)
                ∙ get-insert entity other [] w.local,
          ))))))

  -- EVICT of an entity that succeeds: its tree is gone, and the other trees are there.
  pub evict_controller-evicts :
      (entity other : Text) (w v : World) (resp : TxResponse)
      → evict_controller h entity none w ≡ (ok resp, v)
      → get other v.local ≡ (if text_eq entity other then none else get other w.local)
  unfolding evict_controller
  evict_controller-evicts entity other w v resp e =
      bind-ok_same (Keeps-gets _) e (λ now w1 p1 s1 e1. bind-ok _ _ e1 (λ r w2 p2 e2.
        bind-ok _ _ e2 (λ o w3 p3 e3. bind-ok _ _ e3 (λ _ w4 p4 e4. bind-ok _ _ e4 (λ m w5 p5 e5.
          bind-ok_same (Keeps-send _ (send_local_data-Keeps h m)) e5 (λ _ w6 p6 s6 e6.
            let (_, (_, _, _, _, l2, _)) = write_to_log-ok h _ w1 w2 r (send-ok _ p2) in
            let (_, _, _, l3, _) = restart_if_empty-ok h r.1 0 w2 w3 o p3 in
            let (_, _, l4, _) = advance_counter-ok h r.0 w3 w4 p4 in
            let (_, pv) = pure-ok _ resp w6 v e6 in
            ap (get other)
              (ap (λ x. x.local) (sym pv) ∙ s6.local ∙ remove_tree-ok entity w4 w5 m p5)
            ∙ get-remove entity other w4.local
            ∙ ap (λ x. if text_eq entity other then none else get other x)
                (l4 ∙ l3 ∙ l2 ∙ s1.local)))))))

abbrev pub or_else : Option Types → Option Types → Option Types
or_else none old = old
or_else (some v) old = some v

-- The state that UPDATE SET builds has the content's value for each key of the content, and the
-- old one's for every other key.
pub get-set_states :
    (st content : Entity) (j : Text)
    → HasDistinctKeys content
    → get j (set_states st content) ≡ or_else (get j content) (get j st)
unfolding set_states get
get-set_states st [] j d = refl
get-set_states st ((k, v) ∷ content) j d =
    ground (
      arith,
      text_eq_iff k j,
      get-set_states (insert k v st) content j d.1,
      get-insert k j v st,
      d.0,
    )
