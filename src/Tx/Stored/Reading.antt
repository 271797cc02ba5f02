-- ===== src/Tx/Stored/Reading.antt =====
-- The register that a committed line gets, and the counter.
use mathlib.Core.Path.{subst}
use wooridb.Base.{
  ℕ, ◌+◌, ◌%◌, ◌<◌, not, ◌≡◌, refl, sym, ap, ◌∙◌, some, Option, none, Text, text_key, nat_key, ◌++◌,
  if◌then◌else◌, arith, length, take, drop, drop-length-append, take-length, length-append, ==_iff,
}
use wooridb.Base.Int.{full_range}
use wooridb.Base.Map.{Map, get, insert, contains_key, is_some, get-insert_self}
use wooridb.Base.Sorted
use wooridb.Model.{DataRegister, StateInfo}
use wooridb.Host.{Host}
use wooridb.Wql.Types.{Entity, Uuid}
use wooridb.Server.{World}
use wooridb.Actors.Files.{or_empty, read_slice}
use wooridb.Tx.Steps.{get_entry}
use wooridb.Tx.Rules.{SameStore}
use wooridb.Tx.Durable.{read_slice_from}
use wooridb.Tx.Stored.Commit.{Committed, Taken}

abbrev pub Counts : ℕ → Option Text → Type 0
Counts n none = Unit
Counts n (some t) = n ≡ length t

mod_small : (n : ℕ) → n < full_range → n % full_range ≡ n
mod_small n lt = omega arith

module _ (h : Host) where
  -- The log of the day, empty where there is none yet.
  abbrev pub day_log : World → Text
  day_log w = or_empty (get (h.file_name w.now) w.disk.logs)

  -- Where the log of the day exists, the counter is its length.
  abbrev pub InSync : World → Type 0
  InSync w = Counts w.bytes_counter (get (h.file_name w.now) w.disk.logs)

  InSync-length :
      (w : World)
      → InSync w
      → (if not (contains_key (h.file_name w.now) w.disk.logs) then 0 else w.bytes_counter)
        ≡ length (day_log w)
  unfolding contains_key is_some
  InSync-length w s = of_log (get (h.file_name w.now) w.disk.logs) s
    where
      of_log :
          (o : Option Text)
          → Counts w.bytes_counter o
          → (if not (is_some o) then 0 else w.bytes_counter) ≡ length (or_empty o)
      of_log none s = refl
      of_log (some t) s = s

  get_entry-insert :
      (entity : Text) (id : Uuid) (info : StateInfo) (ids : Map Uuid StateInfo)
      (m : Map Text (Map Uuid StateInfo))
      → get_entry entity id (insert entity (Sorted.insert id info ids) m) ≡ some info
  unfolding get_entry
  get_entry-insert entity id info ids m =
      ap (λ o. elim o [ none ↦ none | some t ↦ get id t ])
        (get-insert_self entity (Sorted.insert id info ids) m)
      ∙ Sorted.get-insert id id info ids
      ∙ ap (λ b. if b then some info else get id ids) ((==_iff id id).1 refl)

  -- The id has a register that reads what the log took of the line, which is all of it where the
  -- write was not short, beside the encoding of the state.
  pub record Recorded (entity : Text) (id : Uuid) (line : Text) (stored : Entity) (v : World)
      : Type 0 where
    pub info : StateInfo
    pub found : get_entry entity id v.local ≡ some info
    pub encoded : h.serialize stored ≡ some info.1
    pub piece : Text
    pub taken : Taken h line piece
    pub reads : read_slice info.0 v.disk ≡ some piece
    pub whole : info.0.bytes_length ≡ length piece

  pub Committed-Recorded :
      (entity : Text) (id : Uuid) (line piece : Text) (stored : Entity) (w v : World)
      → Taken h line piece
      → Committed h w.bytes_counter entity id piece stored w v
      → InSync w
      → Recorded entity id line stored v
  unfolding Committed
  Committed-Recorded entity id line piece stored w v taken (b, ids, q, g, local, logs, counter, now)
        s =
      record {
        info = (r, b);
        found = ap (get_entry entity id) local ∙ get_entry-insert entity id (r, b) ids w.local;
        encoded = q;
        piece = piece;
        taken = taken;
        reads =
            read_slice_from r v.disk (day_log w ++ piece)
              (ap (get r.file_name) logs ∙ get-insert_self (h.file_name w.now) _ w.disk.logs)
            ∙ ap (λ n. some (take (length piece) (drop n (day_log w ++ piece)))) (InSync-length w s)
            ∙ ap (λ t. some (take (length piece) t)) (drop-length-append (day_log w) piece)
            ∙ ap some (take-length piece);
        whole = refl;
      }
    where
      r : DataRegister
      r = record {
        file_name = h.file_name w.now;
        offset = if not (contains_key (h.file_name w.now) w.disk.logs) then 0 else w.bytes_counter;
        bytes_length = length piece;
      }

  pub Committed-InSync :
      (offset : ℕ) (entity : Text) (id : Uuid) (line : Text) (stored : Entity) (w v : World)
      → Committed h offset entity id line stored w v
      → InSync w
      → length (day_log v) < full_range
      → InSync v
  unfolding Committed
  Committed-InSync offset entity id line stored w v (b, ids, q, g, local, logs, counter, now) s lt =
      let held =
        ap (λ d. get (h.file_name d) v.disk.logs) now
        ∙ ap (get (h.file_name w.now)) logs
        ∙ get-insert_self (h.file_name w.now) _ w.disk.logs in
      subst (Counts v.bytes_counter) (sym held) (
        counter
        ∙ ap (λ n. (n + length line) % full_range) (InSync-length w s)
        ∙ ap (λ n. n % full_range) (sym (length-append (day_log w) line))
        ∙ mod_small (length (day_log w ++ line))
            (subst (λ o. length (or_empty o) < full_range) held lt))

  pub SameStore-InSync : (w v : World) → SameStore w v → InSync w → InSync v
  SameStore-InSync w v same s =
      subst (λ n. Counts n (get (h.file_name v.now) v.disk.logs)) (sym same.bytes_counter)
        (subst (λ o. Counts w.bytes_counter o)
          (ap (λ d. get (h.file_name d) w.disk.logs) (sym same.now)
            ∙ ap (get (h.file_name v.now)) (sym same.logs))
          s)
