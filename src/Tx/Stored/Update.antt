-- ===== src/Tx/Stored/Update.antt =====
-- UPDATE SET and UPDATE CONTENT that succeed.
use wooridb.Base.{
  ℕ, ◌<◌, ◌≡◌, refl, sym, ap, ◌∙◌, some, Text, text_key, nat_key, length, arith, Option-cases, inl,
  inr,
}
use mathlib.Core.Path.{subst}
use wooridb.Base.Int.{full_range}
use wooridb.Base.Map.{Map, get}
use wooridb.Model.{StateInfo}
use wooridb.Host.{Host}
use wooridb.Wql.Types.{Entity, Uuid}
use wooridb.Server.{World, ok, ◌>>=◌}
use wooridb.Actors.Lines.{update_set_entity_content}
use wooridb.Actors.Encrypts.{encrypt_content}
use wooridb.Tx.Steps.{TxResponse, get_entry, replace_entry}
use wooridb.Tx.Update.{set_states, updated, commit_update, update_set_controller}
use wooridb.Tx.Rules.{
  Keeps-send, send-ok, Keeps-gets, Keeps-or_fail, Keeps-unwrap, bind-ok, bind-ok_same,
}
use wooridb.Tx.Rules.Calm.{
  tx_time-Keeps, encrypt_content-Keeps, require_uuid-Keeps, fetch_entry-Keeps,
}
use wooridb.Tx.Stored.Steps.{
  tx_time-ok, fetch_entry-ok, unwrap-ok, gets-ok, or_fail-ok, pure-ok, after,
  check_for_unique_keys-same,
}
use wooridb.Tx.Stored.Commit.{Committed, commit_with, commit_with-ok, replace_entry-eq}
use wooridb.Tx.Stored.Reading.{
  InSync, day_log, Recorded, Committed-Recorded, Committed-InSync, SameStore-InSync,
}

module _ (h : Host) where
  commit_update-with :
      (offset : ℕ) (entity : Text) (id : Uuid) (line : Text) (stored : Entity) (w : World)
      → commit_update h offset entity id line stored w
        ≡ commit_with h offset line (λ r. replace_entry h entity id r stored) w
  unfolding commit_update commit_with ◌>>=◌
  commit_update-with offset entity id line stored w = refl

  tree_of :
      (entity : Text) (id : Uuid) (w : World) (old : StateInfo)
      → get_entry entity id w.local ≡ some old
      → (ids : Map Uuid StateInfo) × (get entity w.local ≡ some ids)
  unfolding get_entry
  tree_of entity id w old g = elim (Option-cases (get entity w.local)) [
    | inl n ↦ ground arith
    | inr o ↦ o
  ]

  pub commit_update-Recorded :
      (offset : ℕ) (entity : Text) (id : Uuid) (line : Text) (stored : Entity) (w v : World)
      (old : StateInfo)
      → commit_update h offset entity id line stored w ≡ (ok tt, v)
      → get_entry entity id w.local ≡ some old
      → InSync h w
      → offset ≡ w.bytes_counter
      → length (day_log h v) < full_range
      → Recorded h entity id line stored v × InSync h v
  commit_update-Recorded offset entity id line stored w v old e g s p lt =
      let (ids, t) = tree_of entity id w old g in
      let (piece, taken, committed) =
        commit_with-ok h offset entity id line stored w v ids
          (λ r. replace_entry h entity id r stored)
          (λ r u q. replace_entry-eq h entity id r stored u old (ap (get_entry entity id) q ∙ g))
          (sym (commit_update-with offset entity id line stored w) ∙ e) t in
      (
        Committed-Recorded h entity id line piece stored w v taken
            (subst (λ o. Committed h o entity id piece stored w v) p committed) s,
        Committed-InSync h offset entity id piece stored w v committed s lt,
      )

  -- UPDATE SET that succeeds, where the counter is the length of the day's log: the line of the
  -- event holds the encrypted content, the state that merges it into the one decoded from the
  -- local data, and the replaced register; the id's new register reads that line back,
  -- or its first bytes where a write is short. What is stored beside the register is the encrypted content alone, and not the merged state that the
  -- response gives. The counter is again the length of the day's log, if that is below 2^64.
  pub update_set_controller-Recorded :
      (entity : Text) (content : Entity) (id : Uuid) (w v : World) (resp : TxResponse)
      → update_set_controller h entity content id w ≡ (ok resp, v)
      → InSync h w
      → length (day_log h v) < full_range
      → (encrypted previous : Entity) × (old : StateInfo) × (content_log state_log registry : Text)
        × ((encrypt_content h entity content w.now w).0 ≡ ok encrypted)
        × (get_entry entity id w.local ≡ some old)
        × (h.deserialize old.1 ≡ some previous)
        × (h.entity_to_ron encrypted ≡ some content_log)
        × (h.entity_to_ron (set_states previous encrypted) ≡ some state_log)
        × (h.state_info_to_ron old ≡ some registry)
        × (resp.state ≡ state_log)
        × Recorded h entity id
            (update_set_entity_content h w.now id entity content_log state_log registry)
            encrypted
            v
        × InSync h v
  unfolding update_set_controller updated
  update_set_controller-Recorded entity content id w v resp e s lt =
      bind-ok_same (tx_time-Keeps content) e (λ d w1 p1 s1 e1.
        bind-ok_same (Keeps-gets _) e1 (λ o w2 p2 s2 e2.
          bind-ok_same (Keeps-send _ (encrypt_content-Keeps h entity content d)) e2
            (λ c w3 p3 s3 e3. bind-ok_same (Keeps-or_fail _ _) e3 (λ log w4 p4 s4 e4.
              bind-ok_same (require_uuid-Keeps entity id) e4 (λ _ w5 p5 s5 e5.
                bind-ok_same (Keeps-send _ (check_for_unique_keys-same h entity c)) e5
                  (λ _ w6 p6 s6 e6.
                    bind-ok_same (fetch_entry-Keeps entity id) e6 (λ old w7 p7 s7 e7.
                      bind-ok_same (Keeps-unwrap _) e7 (λ previous w8 p8 s8 e8.
                        bind-ok_same (Keeps-or_fail _ _) e8 (λ state_log w9 p9 s9 e9.
                          bind-ok_same (Keeps-or_fail _ _) e9 (λ registry u p10 s10 e10.
                            bind-ok _ _ e10 (λ z u' p11 e11.
                              let (pd, pw1) = tx_time-ok content w w1 d p1 in
                              let (po, pw2) = gets-ok _ w1 w2 o p2 in
                              let (pl, _) = or_fail-ok _ _ w3 w4 log p4 in
                              let (pf, _) = fetch_entry-ok entity id w6 w7 old p7 in
                              let (pp, _) = unwrap-ok _ w7 w8 previous p8 in
                              let (ps, _) = or_fail-ok _ _ w8 w9 state_log p9 in
                              let (pg, _) = or_fail-ok _ _ w9 u registry p10 in
                              let (pr, pv) = pure-ok _ resp u' v e11 in
                              let early = after s1 (after s2 (after s3 (after s4 (after s5 s6)))) in
                              let late = after s7 (after s8 (after s9 s10)) in
                              let middle =
                                after s2 (after s3 (after s4 (after s5 (after s6 late)))) in
                              let done =
                                subst
                                  (λ x.
                                    Recorded h entity id
                                      (update_set_entity_content h d id entity log state_log
                                        registry)
                                      c x
                                    × InSync h x)
                                  pv
                                  (commit_update-Recorded o entity id _ c u u' old p11
                                    (ap (get_entry entity id) late.local ∙ pf)
                                    (SameStore-InSync h w u (after early late) s)
                                    (po ∙ sym middle.bytes_counter)
                                    (subst (λ x. length (day_log h x) < full_range) (sym pv) lt)) in
                              (
                                c,
                                previous,
                                old,
                                log,
                                state_log,
                                registry,
                                ap (λ x. (encrypt_content h entity content x w).0) (sym pd)
                                    ∙ ap (λ x. (encrypt_content h entity content d x).0)
                                        (sym (pw2 ∙ pw1))
                                    ∙ ap (λ q. q.0) (send-ok _ p3),
                                ap (get_entry entity id) (sym early.local) ∙ pf,
                                pp,
                                pl,
                                ps,
                                pg,
                                ap (λ x. x.state) (sym pr),
                                subst
                                    (λ x.
                                      Recorded h entity id
                                        (update_set_entity_content h x id entity log state_log
                                          registry)
                                        c v)
                                    pd done.0,
                                done.1,
                              ))))))))))))
