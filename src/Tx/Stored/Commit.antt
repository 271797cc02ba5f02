-- ===== src/Tx/Stored/Commit.antt =====
-- The block that ends every controller that writes an entity: the line goes to the log of the day,
-- the register to the local data, and the counter moves.
use wooridb.Base.{
  ℕ, ◌+◌, ◌%◌, Bool, not, ◌≡◌, refl, sym, ap, ◌∙◌, some, Option, Text, text_key, nat_key, ◌++◌,
  if◌then◌else◌, arith, Option-cases, inl, inr, length, ◌⊎◌, take,
}
use wooridb.Base.Int.{full_range}
use wooridb.Base.Map.{Map, get, insert, contains_key}
use wooridb.Base.Sorted
use wooridb.Model.{DataRegister, StateInfo, LocalContext}
use wooridb.Host.{Host}
use wooridb.Wql.Types.{Entity, Uuid}
use wooridb.Server.{send, World, Outcome, ok, Act, ◌>>=◌, ◌>>◌}
use wooridb.Actors.Files.{write_to_log, append_log, called, or_empty, send_local_data}
use wooridb.Server.Files.{IoResult, done, not_opened, not_written, short}
use wooridb.Tx.Steps.{
  get_entry, restart_if_empty, fetch_add, insert_entry, replace_entry, advance_counter,
}
use wooridb.Tx.Rules.{Keeps-send, send-ok, Keeps-gets, bind-ok, bind-ok_same, ok_same}
use wooridb.Tx.Rules.Calm.{send_local_data-Keeps, offset_counter-Keeps}

module _ (h : Host) where
  log_of : World → Option Text
  log_of w = get (h.file_name w.now) w.disk.logs

  -- What a write took of a line: the whole, or where a call is short its first bytes.
  abbrev pub Taken : Text → Text → Type 0
  Taken line piece =
      (piece ≡ line) ⊎ ((k : ℕ) × (n : ℕ) × (h.io k ≡ short n) × (piece ≡ take n line))

  abbrev pub Written : Text → World → World → ℕ × Bool → Text → Type 0
  Written line w v r piece =
      Taken line piece
      × (r ≡ (length piece, not (contains_key (h.file_name w.now) w.disk.logs)))
      × (v.disk.logs
          ≡ insert (h.file_name w.now) (or_empty (get (h.file_name w.now) w.disk.logs) ++ piece)
              w.disk.logs)
      × (v.bytes_counter ≡ w.bytes_counter)
      × (v.local ≡ w.local)
      × (v.now ≡ w.now)

  pub write_to_log-ok :
      (line : Text) (w v : World) (r : ℕ × Bool)
      → write_to_log h line w ≡ (ok r, v)
      → (piece : Text) × Written line w v r piece
  unfolding write_to_log append_log called
  write_to_log-ok line w v r e = at (h.io w.disk.io_count) refl
    where
      at : (o : IoResult) → h.io w.disk.io_count ≡ o → (piece : Text) × Written line w v r piece
      at done p =
          (line, (inl refl, ground arith, ground arith, ground arith, ground arith, ground arith))
      at (short n) p = (
        take n line,
        (
          inr (w.disk.io_count, n, p, refl),
          ground arith,
          ground arith,
          ground arith,
          ground arith,
          ground arith,
        ),
      )
      at not_opened p = absurd (ground arith)
      at (not_written n) p = absurd (ground arith)

  insert_entry-ok :
      (entity : Text) (id : Uuid) (reg : DataRegister) (state : Entity) (w v : World)
      (m : LocalContext) (ids : Map Uuid StateInfo)
      → insert_entry h entity id reg state w ≡ (ok m, v)
      → get entity w.local ≡ some ids
      → (b : Text) × (h.serialize state ≡ some b)
        × (v.local ≡ insert entity (Sorted.insert id (reg, b) ids) w.local)
        × (v.disk.logs ≡ w.disk.logs)
        × (v.bytes_counter ≡ w.bytes_counter)
        × (v.now ≡ w.now)
  unfolding insert_entry
  insert_entry-ok entity id reg state w v m ids e g = elim (Option-cases (h.serialize state)) [
    | inl n ↦ ground arith
    | inr (b, p) ↦ (b, p, ground arith, ground arith, ground arith, ground arith)
  ]

  pub replace_entry-eq :
      (entity : Text) (id : Uuid) (reg : DataRegister) (state : Entity) (w : World)
      (old : StateInfo)
      → get_entry entity id w.local ≡ some old
      → replace_entry h entity id reg state w ≡ insert_entry h entity id reg state w
  unfolding replace_entry insert_entry
  replace_entry-eq entity id reg state w old g = ground arith

  pub restart_if_empty-ok :
      (b : Bool) (n : ℕ) (w v : World) (k : ℕ)
      → restart_if_empty b n w ≡ (ok k, v)
      → (k ≡ (if b then 0 else n))
        × (v.bytes_counter ≡ (if b then 0 else w.bytes_counter))
        × (v.disk.logs ≡ w.disk.logs)
        × (v.local ≡ w.local)
        × (v.now ≡ w.now)
  unfolding restart_if_empty
  restart_if_empty-ok b n w v k e = ground arith

  pub advance_counter-ok :
      (n : ℕ) (w v : World)
      → advance_counter h n w ≡ (ok tt, v)
      → (v.bytes_counter ≡ (w.bytes_counter + n) % full_range)
        × (v.disk.logs ≡ w.disk.logs)
        × (v.local ≡ w.local)
        × (v.now ≡ w.now)
  unfolding advance_counter fetch_add
  advance_counter-ok n w v e = bind-ok _ _ e (λ a u p e1.
      bind-ok_same (Keeps-gets _) e1 (λ c u' p' s' e2.
        let s = ok_same (Keeps-send _ (offset_counter-Keeps h c)) e2 in
        (
          s.bytes_counter ∙ s'.bytes_counter ∙ sym (ap (λ q. q.1.bytes_counter) p),
          s.logs ∙ s'.logs ∙ sym (ap (λ q. q.1.disk.logs) p),
          s.local ∙ s'.local ∙ sym (ap (λ q. q.1.local) p),
          s.now ∙ s'.now ∙ sym (ap (λ q. q.1.now) p),
        )))

  abbrev with_entry :
      Text → Uuid → Map Uuid StateInfo → Text → Text → ℕ → ℕ → LocalContext → LocalContext
  with_entry entity id ids b file offset bytes_length m =
      insert entity
        (Sorted.insert id
          (record { file_name = file; offset = offset; bytes_length = bytes_length }, b) ids)
        m

  -- `w` before the block, `v` after: what was written is at the end of the log, its register is in the
  -- local data with the encoding of `stored`, and the counter has moved past it.
  unfoldable pub Committed : ℕ → Text → Uuid → Text → Entity → World → World → Type 0
  Committed offset entity id line stored w v =
      let file = h.file_name w.now in
      let fresh_log = not (contains_key file w.disk.logs) in
      (b : Text) × (ids : Map Uuid StateInfo) × (h.serialize stored ≡ some b)
      × (get entity w.local ≡ some ids)
      × (v.local
          ≡ insert entity
              (Sorted.insert id
                (
                  record {
                    file_name = file;
                    offset = if fresh_log then 0 else offset;
                    bytes_length = length line;
                  },
                  b,
                )
                ids)
              w.local)
      × (v.disk.logs ≡ insert file (or_empty (get file w.disk.logs) ++ line) w.disk.logs)
      × (v.bytes_counter ≡ ((if fresh_log then 0 else w.bytes_counter) + length line) % full_range)
      × (v.now ≡ w.now)

  unfoldable pub commit_with :
      ℕ → Text → (DataRegister → Act LocalContext) → World → Outcome (Unit {0}) × World
  commit_with offset line entry w =
      (do
        written ← send (write_to_log h line)
        offset ← restart_if_empty written.1 offset
        m ←
            entry
              (record { file_name = h.file_name w.now; offset = offset; bytes_length = written.0 })
        send (send_local_data h m)
        advance_counter h written.0)
        w

  pub commit_with-ok :
      (offset : ℕ) (entity : Text) (id : Uuid) (line : Text) (stored : Entity) (w v : World)
      (ids : Map Uuid StateInfo) (entry : DataRegister → Act LocalContext)
      → ((r : DataRegister) (u : World)
          → u.local ≡ w.local
          → entry r u ≡ insert_entry h entity id r stored u)
      → commit_with offset line entry w ≡ (ok tt, v)
      → get entity w.local ≡ some ids
      → (piece : Text) × Taken line piece × Committed offset entity id piece stored w v
  unfolding commit_with Committed
  commit_with-ok offset entity id line stored w v ids entry k e g = bind-ok _ _ e (λ r w1 p1 e1.
      bind-ok _ _ e1 (λ o w2 p2 e2. bind-ok _ _ e2 (λ m w3 p3 e3.
        bind-ok_same (Keeps-send _ (send_local_data-Keeps h m)) e3 (λ x w4 p4 s4 e4.
          let (piece, written) = write_to_log-ok line w w1 r (send-ok _ p1) in
          let (taken, pr, l1, c1, m1, n1) = written in
          let (po, c2, l2, m2, n2) = restart_if_empty-ok r.1 offset w1 w2 o p2 in
          let (b, q, m3, l3, c3, n3) =
            insert_entry-ok entity id _ stored w2 w3 m ids (sym (k _ w2 (m2 ∙ m1)) ∙ p3)
              (ap (get entity) (m2 ∙ m1) ∙ g) in
          let (c5, l5, m5, n5) = advance_counter-ok r.0 w4 v e4 in
          (
            piece,
            taken,
            (
              b,
              ids,
              q,
              g,
              m5
                  ∙ s4.local
                  ∙ m3
                  ∙ ap (λ x. with_entry entity id ids b (h.file_name w.now) x r.0 w2.local) po
                  ∙ ap
                      (λ x.
                        with_entry entity id ids b (h.file_name w.now) (if x.1 then 0 else offset)
                          x.0 w2.local)
                      pr
                  ∙ ap (with_entry entity id ids b (h.file_name w.now) _ _) (m2 ∙ m1),
              l5 ∙ s4.logs ∙ l3 ∙ l2 ∙ l1,
              c5
                  ∙ ap (λ x. (x + r.0) % full_range)
                      (s4.bytes_counter ∙ c3 ∙ c2 ∙ ap (λ x. if r.1 then 0 else x) c1)
                  ∙ ap (λ x. ((if x.1 then 0 else w.bytes_counter) + x.0) % full_range) pr,
              n5 ∙ s4.now ∙ n3 ∙ n2 ∙ n1,
            ),
          )))))
