-- ===== src/Base/Int.antt =====
-- Rust's `isize` on a 64-bit machine: integers, their order, and addition that wraps around.
use Prim.Native.Nat.{ℕ, suc, ◌+◌, ◌-◌, ◌%◌, ◌^◌, ◌≤◌, compare, Ordering}
use mathlib.Core.Path.{◌≡◌, refl, ap, sym, ◌∙◌}
use native.Mathlib.Omega.{arith}
use wooridb.Base.Tests.{if◌then◌else◌, leb, ltb}

-- `negsuc n` is -(n + 1).
pub data ℤ : Type 0 where
  pos : ℕ → ℤ
  negsuc : ℕ → ℤ

unfoldable pub compare_ℤ : ℤ → ℤ → Ordering
compare_ℤ (pos a) (pos b) = compare a b
compare_ℤ (pos a) (negsuc b) = Ordering.gt
compare_ℤ (negsuc a) (pos b) = Ordering.lt
compare_ℤ (negsuc a) (negsuc b) = compare b a

sub_ℕ : ℕ → ℕ → ℤ
sub_ℕ a b = if leb b a then pos (a - b) else negsuc (b - a - 1)

infixl 65 ◌+ℤ◌
unfoldable pub ◌+ℤ◌ : ℤ → ℤ → ℤ
unfolding sub_ℕ
pos a +ℤ pos b = pos (a + b)
pos a +ℤ negsuc b = sub_ℕ a (suc b)
negsuc a +ℤ pos b = sub_ℕ b (suc a)
negsuc a +ℤ negsuc b = negsuc (suc (a + b))

abbrev pub half_range : ℕ
half_range = 2 ^ 63

abbrev pub full_range : ℕ
full_range = 2 ^ 64

-- The bits of an integer, read as an unsigned word.
unfoldable pub bits : ℤ → ℕ
bits (pos a) = a % full_range
bits (negsuc a) = full_range - 1 - a % full_range

unfoldable pub wrap : ℤ → ℤ
unfolding bits
wrap z = let u = bits z in if ltb u half_range then pos u else negsuc (full_range - 1 - u)

abbrev pub InRange : ℤ → Type 0
InRange (pos a) = suc a ≤ half_range
InRange (negsuc a) = suc a ≤ half_range

-- A sum that is in range is not changed by the wrap-around.
pub wrap-InRange : (z : ℤ) → InRange z → wrap z ≡ z
unfolding wrap
wrap-InRange (pos a) h = ground arith
wrap-InRange (negsuc a) h = ground arith

pub InRange-wrap : (z : ℤ) → InRange (wrap z)
unfolding wrap
InRange-wrap (pos a) = ground arith
InRange-wrap (negsuc a) = ground arith

of_bits : ℕ → ℤ
of_bits u = if ltb u half_range then pos u else negsuc (full_range - 1 - u)

wrap-of_bits : (z : ℤ) → wrap z ≡ of_bits (bits z)
unfolding wrap of_bits
wrap-of_bits z = refl

pub bits-wrap : (z : ℤ) → bits (wrap z) ≡ bits z
unfolding wrap bits
bits-wrap (pos a) = ground arith
bits-wrap (negsuc a) = ground arith

pub bits-+ℤ : (a b : ℤ) → bits (a +ℤ b) ≡ (bits a + bits b) % full_range
unfolding bits ◌+ℤ◌
bits-+ℤ (pos a) (pos b) = ground arith
bits-+ℤ (pos a) (negsuc b) = ground arith
bits-+ℤ (negsuc a) (pos b) = ground arith
bits-+ℤ (negsuc a) (negsuc b) = ground arith

-- The wrapped value depends on the bits alone.
pub wrap_of_bits : (y z : ℤ) → bits y ≡ bits z → wrap y ≡ wrap z
wrap_of_bits y z e = wrap-of_bits y ∙ ap of_bits e ∙ sym (wrap-of_bits z)

-- Additions that wrap around may be made in either order.
pub wrap-add_comm : (a i j : ℤ) → wrap (wrap (a +ℤ i) +ℤ j) ≡ wrap (wrap (a +ℤ j) +ℤ i)
wrap-add_comm a i j = wrap_of_bits (wrap (a +ℤ i) +ℤ j) (wrap (a +ℤ j) +ℤ i) (
    omega (
      arith,
      bits-+ℤ (wrap (a +ℤ i)) j,
      bits-+ℤ (wrap (a +ℤ j)) i,
      bits-wrap (a +ℤ i),
      bits-wrap (a +ℤ j),
      bits-+ℤ a i,
      bits-+ℤ a j,
    ))
