-- ===== src/Tx/Stored/Insert.antt =====
-- INSERT that succeeds.
use wooridb.Base.{
  ℕ, ◌<◌, ◌≡◌, refl, sym, ap, ◌∙◌, some, Option, none, Text, text_key, nat_key, length,
}
use mathlib.Core.Path.{subst}
use wooridb.Base.Int.{full_range}
use wooridb.Base.Map.{Map, get}
use wooridb.Model.{StateInfo}
use wooridb.Host.{Host}
use wooridb.Wql.Types.{Entity, Uuid}
use wooridb.Server.{World, ok, ◌>>=◌}
use wooridb.Actors.Lines.{insert_entity_content}
use wooridb.Actors.Encrypts.{encrypt_content}
use wooridb.Tx.Steps.{TxResponse, insert_entry}
use wooridb.Tx.Insert.{id_or_fresh, commit_insert, insert_controller}
use wooridb.Tx.Rules.{
  Keeps-send, send-ok, SameStore, Keeps-gets, Keeps-or_fail, bind-ok, bind-ok_same,
}
use wooridb.Tx.Rules.Calm.{tx_time-Keeps, encrypt_content-Keeps, require_entity-Keeps}
use wooridb.Tx.Stored.Steps.{
  tx_time-ok, require_entity-ok, gets-ok, or_fail-ok, pure-ok, after, check_for_unique_keys-same,
}
use wooridb.Tx.Stored.Commit.{Committed, commit_with, commit_with-ok}
use wooridb.Tx.Stored.Reading.{
  InSync, day_log, Recorded, Committed-Recorded, Committed-InSync, SameStore-InSync,
}

id_or_fresh-same :
    (uuid : Option Uuid) (w u : World) → SameStore w u → id_or_fresh uuid u ≡ id_or_fresh uuid w
id_or_fresh-same none w u s = s.fresh
id_or_fresh-same (some id) w u s = refl

module _ (h : Host) where
  commit_insert-with :
      (offset : ℕ) (entity : Text) (content : Entity) (log : Text) (id : Uuid) (w : World)
      → commit_insert h offset entity content log id w
        ≡ commit_with h offset
            (insert_entity_content h w.now id entity log)
            (λ r. insert_entry h entity id r content)
            w
  unfolding commit_insert commit_with ◌>>=◌
  commit_insert-with offset entity content log id w = refl

  commit_insert-Recorded :
      (offset : ℕ) (entity : Text) (content : Entity) (log : Text) (id : Uuid) (w v : World)
      (ids : Map Uuid StateInfo)
      → commit_insert h offset entity content log id w ≡ (ok tt, v)
      → get entity w.local ≡ some ids
      → InSync h w
      → offset ≡ w.bytes_counter
      → length (day_log h v) < full_range
      → Recorded h entity id (insert_entity_content h w.now id entity log) content v × InSync h v
  commit_insert-Recorded offset entity content log id w v ids e g s p lt =
      let line = insert_entity_content h w.now id entity log in
      let (piece, taken, committed) =
        commit_with-ok h offset entity id line content w v ids
          (λ r. insert_entry h entity id r content) (λ r u q. refl)
          (sym (commit_insert-with offset entity content log id w) ∙ e) g in
      (
        Committed-Recorded h entity id line piece content w v taken
            (subst (λ o. Committed h o entity id piece content w v) p committed) s,
        Committed-InSync h offset entity id piece content w v committed s lt,
      )

  -- INSERT that succeeds, where the counter is the length of the day's log: the entity has, under
  -- the id given or the fresh one, a register that reads back the very line of this event, or its
  -- first bytes where a write is short, beside the encoding of the encrypted content; the line
  -- holds that content in RON, and the response names the id. The counter is again the length of the day's log, if that is below 2^64.
  pub insert_controller-Recorded :
      (entity : Text) (content : Entity) (uuid : Option Uuid) (w v : World) (resp : TxResponse)
      → insert_controller h entity content uuid w ≡ (ok resp, v)
      → InSync h w
      → length (day_log h v) < full_range
      → (encrypted : Entity) × (log : Text) × ((encrypt_content h entity content w.now w).0
          ≡ ok encrypted)
        × (h.entity_to_ron encrypted ≡ some log)
        × (resp.uuid ≡ some (id_or_fresh uuid w))
        × Recorded h entity
            (id_or_fresh uuid w)
            (insert_entity_content h w.now (id_or_fresh uuid w) entity log)
            encrypted
            v
        × InSync h v
  unfolding insert_controller
  insert_controller-Recorded entity content uuid w v resp e s lt =
      bind-ok_same (tx_time-Keeps content) e (λ d w1 p1 s1 e1.
        bind-ok_same (Keeps-gets _) e1 (λ o w2 p2 s2 e2.
          bind-ok_same (Keeps-send _ (encrypt_content-Keeps h entity content d)) e2
            (λ c w3 p3 s3 e3. bind-ok_same (Keeps-or_fail _ _) e3 (λ log w4 p4 s4 e4.
              bind-ok_same (require_entity-Keeps entity) e4 (λ _ w5 p5 s5 e5.
                bind-ok_same (Keeps-send _ (check_for_unique_keys-same h entity c)) e5
                  (λ _ w6 p6 s6 e6. bind-ok_same (Keeps-gets _) e6 (λ id w7 p7 s7 e7.
                    bind-ok _ _ e7 (λ z w8 p8 e8.
                      let (pd, pw1) = tx_time-ok content w w1 d p1 in
                      let (po, pw2) = gets-ok _ w1 w2 o p2 in
                      let (pl, _) = or_fail-ok _ _ w3 w4 log p4 in
                      let (ids, g) = require_entity-ok entity w4 w5 p5 in
                      let (pi, _) = gets-ok _ w6 w7 id p7 in
                      let (pr, pv) = pure-ok _ resp w8 v e8 in
                      let late = after s5 (after s6 s7) in
                      let same = after s3 (after s4 late) in
                      let qi =
                        pi
                        ∙ id_or_fresh-same uuid w w6
                            (after s1 (after s2 (after s3 (after s4 (after s5 s6))))) in
                      let done =
                        subst
                          (λ x.
                            Recorded h entity id (insert_entity_content h w7.now id entity log) c x
                            × InSync h x)
                          pv
                          (commit_insert-Recorded o entity c log id w7 w8 ids p8
                            (ap (get entity) late.local ∙ g)
                            (SameStore-InSync h w w7 (after s1 (after s2 same)) s)
                            (po ∙ sym (after s2 same).bytes_counter)
                            (subst (λ x. length (day_log h x) < full_range) (sym pv) lt)) in
                      (
                        c,
                        log,
                        ap (λ x. (encrypt_content h entity content x w).0) (sym pd)
                            ∙ ap (λ x. (encrypt_content h entity content d x).0) (sym (pw2 ∙ pw1))
                            ∙ ap (λ q. q.0) (send-ok _ p3),
                        pl,
                        ap (λ x. x.uuid) (sym pr) ∙ ap some qi,
                        subst
                            (λ x.
                              Recorded h entity x (insert_entity_content h w.now x entity log) c v)
                            qi
                            (subst
                              (λ x.
                                Recorded h entity id (insert_entity_content h x id entity log) c v)
                              ((after s1 (after s2 same)).now) done.0),
                        done.1,
                      )))))))))
