-- ===== src/Tx/Stored/Content.antt =====
-- UPDATE CONTENT that succeeds.
use wooridb.Base.{◌<◌, ◌≡◌, sym, ap, ◌∙◌, some, Text, text, text_key, nat_key, length}
use mathlib.Core.Path.{subst}
use wooridb.Base.Int.{full_range}
use wooridb.Base.Map.{insert}
use wooridb.Model.{StateInfo}
use wooridb.Host.{Host}
use wooridb.Wql.Types.{Entity, Uuid, DateTime, date_time}
use wooridb.Server.{World, ok}
use wooridb.Actors.Lines.{update_content_entity_content}
use wooridb.Actors.Content.{update_content_states}
use wooridb.Tx.Steps.{TxResponse, get_entry}
use wooridb.Tx.Update.{updated, update_content_controller}
use wooridb.Tx.Rules.{Keeps-send, Keeps-gets, Keeps-or_fail, Keeps-unwrap, bind-ok, bind-ok_same}
use wooridb.Tx.Rules.Calm.{
  tx_time-Keeps, require_uuid-Keeps, fetch_entry-Keeps, refuse_encrypted-Keeps,
}
use wooridb.Tx.Stored.Steps.{
  tx_time-ok, fetch_entry-ok, unwrap-ok, gets-ok, or_fail-ok, pure-ok, after,
  check_for_unique_keys-same,
}
use wooridb.Tx.Stored.Reading.{InSync, day_log, Recorded, SameStore-InSync}
use wooridb.Tx.Stored.Update.{commit_update-Recorded}

module _ (h : Host) where
  -- What an update at `date` leaves: the line holds the content with its time, the merged state
  -- and the replaced register; the merged state is stored.
  abbrev pub ContentStored :
      Text → Entity → Uuid → World → World → TxResponse → DateTime → Uuid → DateTime → Type 0
  ContentStored entity content id w v resp date fresh now =
      let timed = insert (text "tx_time") (date_time date) content in
      (previous : Entity) × (old : StateInfo) × (content_log state_log registry : Text) × (get_entry
          entity id w.local
        ≡ some old)
      × (h.deserialize old.1 ≡ some previous)
      × (h.entity_to_ron timed ≡ some content_log)
      × (h.entity_to_ron (update_content_states h.float64 fresh date previous timed)
          ≡ some state_log)
      × (h.state_info_to_ron old ≡ some registry)
      × (resp.state ≡ state_log)
      × Recorded h entity id
          (update_content_entity_content h now id entity content_log state_log registry)
          (update_content_states h.float64 fresh date previous timed) v
      × InSync h v

  -- UPDATE CONTENT that succeeds, where the counter is the length of the day's log: the line of
  -- the event holds the content, the state that merges it into the one decoded from the local
  -- data, and the replaced register; the id's new register reads that line back,
  -- or its first bytes where a write is short, and the merged state is stored beside it. The counter is again the length of the day's log, if that is below
  -- 2^64.
  pub update_content_controller-Recorded :
      (entity : Text) (content : Entity) (id : Uuid) (w v : World) (resp : TxResponse)
      → update_content_controller h entity content id w ≡ (ok resp, v)
      → InSync h w
      → length (day_log h v) < full_range
      → ContentStored entity content id w v resp w.now w.fresh w.now
  unfolding update_content_controller updated
  update_content_controller-Recorded entity content id w v resp e s lt =
      bind-ok_same (tx_time-Keeps content) e (λ d w1 p1 s1 e1.
        bind-ok_same (Keeps-gets _) e1 (λ o w2 p2 s2 e2.
          bind-ok_same (refuse_encrypted-Keeps entity content) e2 (λ _ w3 p3 s3 e3.
            bind-ok_same (Keeps-or_fail _ _) e3 (λ log w4 p4 s4 e4.
              bind-ok_same (require_uuid-Keeps entity id) e4 (λ _ w5 p5 s5 e5.
                bind-ok_same (Keeps-send _ (check_for_unique_keys-same h entity _)) e5
                  (λ _ w6 p6 s6 e6.
                    bind-ok_same (fetch_entry-Keeps entity id) e6 (λ old w7 p7 s7 e7.
                      bind-ok_same (Keeps-unwrap _) e7 (λ previous w8 p8 s8 e8.
                        bind-ok_same (Keeps-gets _) e8 (λ fresh w9 p9 s9 e9.
                          bind-ok_same (Keeps-or_fail _ _) e9 (λ state_log w10 p10 s10 e10.
                            bind-ok_same (Keeps-or_fail _ _) e10 (λ registry w11 p11 s11 e11.
                              bind-ok_same (Keeps-gets _) e11 (λ now u p12 s12 e12.
                                bind-ok _ _ e12 (λ z u' p13 e13.
                                  let (pd, _) = tx_time-ok content w w1 d p1 in
                                  let (po, _) = gets-ok _ w1 w2 o p2 in
                                  let (pl, _) = or_fail-ok _ _ w3 w4 log p4 in
                                  let (pf, _) = fetch_entry-ok entity id w6 w7 old p7 in
                                  let (pp, _) = unwrap-ok _ w7 w8 previous p8 in
                                  let (ph, _) = gets-ok _ w8 w9 fresh p9 in
                                  let (ps, _) = or_fail-ok _ _ w9 w10 state_log p10 in
                                  let (pg, _) = or_fail-ok _ _ w10 w11 registry p11 in
                                  let (pn, _) = gets-ok _ w11 u now p12 in
                                  let (pr, pv) = pure-ok _ resp u' v e13 in
                                  let early =
                                    after s1 (after s2 (after s3 (after s4 (after s5 s6)))) in
                                  let tail = after s9 (after s10 s11) in
                                  let late = after s7 (after s8 (after tail s12)) in
                                  let middle =
                                    after s2 (after s3 (after s4 (after s5 (after s6 late)))) in
                                  let done =
                                    subst
                                      (λ x.
                                        Recorded h entity id
                                          (update_content_entity_content h now id entity log
                                            state_log registry)
                                          (update_content_states h.float64 fresh d previous
                                            (insert (text "tx_time") (date_time d) content))
                                          x
                                        × InSync h x)
                                      pv
                                      (commit_update-Recorded h o entity id _ _ u u' old p13
                                        (ap (get_entry entity id) late.local ∙ pf)
                                        (SameStore-InSync h w u (after early late) s)
                                        (po ∙ sym middle.bytes_counter)
                                        (subst (λ x. length (day_log h x) < full_range) (sym pv)
                                          lt)) in
                                  subst
                                    (λ x. ContentStored entity content id w v resp x w.fresh w.now)
                                    pd
                                    (subst (λ x. ContentStored entity content id w v resp d x w.now)
                                      (ph ∙ (after early (after s7 s8)).fresh)
                                      (subst
                                        (λ x. ContentStored entity content id w v resp d fresh x)
                                        (pn ∙ (after early (after s7 (after s8 tail))).now)
                                        (
                                          previous,
                                          old,
                                          log,
                                          state_log,
                                          registry,
                                          ap (get_entry entity id) (sym early.local) ∙ pf,
                                          pp,
                                          pl,
                                          ps,
                                          pg,
                                          ap (λ x. x.state) (sym pr),
                                          done.0,
                                          done.1,
                                        ))))))))))))))))
