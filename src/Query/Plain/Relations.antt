-- ===== src/Query/Plain/Relations.antt =====
-- INTERSECT, DIFFERENCE and UNION of states without hashes have none.
use wooridb.Base.{
  Bool, true, false, not, ◌&&◌, [], ◌∷◌, ◌++◌, Text, text, text_key, all, arith, ◌≡◌, refl,
  if◌then◌else◌, Option-cases, inl, inr,
}
use wooridb.Base.Map.{get, insert, remove, contains_key}
use wooridb.Wql.Types.{Types, Entity, Float64, is_hash}
use wooridb.Wql.Ast.{RelationType, key, key_value}
use wooridb.Query.Relations.{
  each_pair, same_value, intersect_step, difference_step, union_step, intersect_states,
  difference_states, union_states,
}
use wooridb.Query.Plain.{plain, all-insert, all-remove, all-get}

abbrev plain_type : Types → Bool
plain_type v = not (is_hash v)

each_pair-plain :
    (step : Text → Types → Entity → Entity) (pairs state : Entity)
    → ((k : Text) (v : Types) (s : Entity)
        → plain_type v ≡ true
        → plain s ≡ true
        → plain (step k v s) ≡ true)
    → plain pairs ≡ true
    → plain state ≡ true
    → plain (each_pair step pairs state) ≡ true
unfolding each_pair all
each_pair-plain step [] state c p s = s
each_pair-plain step ((k, v) ∷ pairs) state c p s =
    each_pair-plain step pairs (step k v state) c (ground (arith, p))
      (c k v state (ground (arith, p)) s)

if-plain :
    (b : Bool) (x y : Entity) → plain x ≡ true → plain y ≡ true → plain (if b then x else y) ≡ true
if-plain true x y px py = px
if-plain false x y px py = py

module _ (f : Float64) (first second : Entity) (pf : plain first ≡ true) where
  intersect_step-plain :
      (t : RelationType) (k : Text) (v : Types) (s : Entity)
      → plain_type v ≡ true
      → plain s ≡ true
      → plain (intersect_step f t first second k v s) ≡ true
  unfolding intersect_step
  intersect_step-plain key k v s pv ps = elim (Option-cases (get k first)) [
    | inl n ↦ rw (n, intersect_step) ps
    | inr (w, p) ↦
        rw (p, intersect_step) (all-insert plain_type k w s (all-get plain_type k w first pf p) ps)
  ]
  intersect_step-plain key_value k v s pv ps =
      if-plain (contains_key k first && same_value f (get k first) (get k second)) (insert k v s) s
        (all-insert plain_type k v s pv ps) ps

  difference_step-plain :
      (t : RelationType) (k : Text) (v : Types) (s : Entity)
      → plain_type v ≡ true
      → plain s ≡ true
      → plain (difference_step f t first second k v s) ≡ true
  unfolding difference_step
  difference_step-plain key k v s pv ps =
      if-plain (contains_key k first) (remove k s) s (all-remove plain_type k s ps) ps
  difference_step-plain key_value k v s pv ps =
      if-plain (contains_key k first && same_value f (get k first) (get k second)) (remove k s) s
        (all-remove plain_type k s ps) ps

  union_step-plain :
      (t : RelationType) (k : Text) (v : Types) (s : Entity)
      → plain_type v ≡ true
      → plain s ≡ true
      → plain (union_step f t first second k v s) ≡ true
  unfolding union_step
  union_step-plain key k v s pv ps =
      if-plain (not (contains_key k first)) (insert k v s) s (all-insert plain_type k v s pv ps) ps
  union_step-plain key_value k v s pv ps =
      if-plain (not (same_value f (get k first) (get k second)) && contains_key k first)
        (insert (k ++ text ":duplicated") v s) _
        (all-insert plain_type (k ++ text ":duplicated") v s pv ps)
        (if-plain (not (same_value f (get k first) (get k second)) && not (contains_key k first))
          (insert k v s) s (all-insert plain_type k v s pv ps) ps)

  pub intersect_states-plain :
      (t : RelationType) → plain second ≡ true → plain (intersect_states f t first second) ≡ true
  unfolding intersect_states all
  intersect_states-plain t p =
      each_pair-plain (intersect_step f t first second) second [] (intersect_step-plain t) p refl

  pub difference_states-plain :
      (t : RelationType) → plain second ≡ true → plain (difference_states f t first second) ≡ true
  unfolding difference_states
  difference_states-plain t p =
      each_pair-plain (difference_step f t first second) second first (difference_step-plain t) p pf

  pub union_states-plain :
      (t : RelationType) → plain second ≡ true → plain (union_states f t first second) ≡ true
  unfolding union_states
  union_states-plain t p =
      each_pair-plain (union_step f t first second) second first (union_step-plain t) p pf
