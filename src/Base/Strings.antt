-- ===== src/Base/Strings.antt =====
-- Rust's tests and edits on `String`, as bytes: the program looks for ASCII text only.
use Prim.Native.Nat.{ℕ}
use mathlib.Core.Bool.{Bool, true, false, ◌&&◌, ◌||◌}
use mathlib.Core.List.{[], ◌∷◌}
use wooridb.Base.Tests.{Text, nat_eq, text_eq, if◌then◌else◌}

unfoldable pub starts_with : Text → Text → Bool
starts_with [] s = true
starts_with (a ∷ pattern) [] = false
starts_with (a ∷ pattern) (b ∷ s) = nat_eq a b && starts_with pattern s

unfoldable pub ends_with : Text → Text → Bool
unfolding text_eq
ends_with pattern [] = text_eq pattern []
ends_with pattern (b ∷ s) = text_eq pattern (b ∷ s) || ends_with pattern s

-- str::contains
unfoldable pub has_part : Text → Text → Bool
unfolding starts_with
has_part pattern [] = starts_with pattern []
has_part pattern (b ∷ s) = starts_with pattern (b ∷ s) || has_part pattern s

-- str::replace of one character by nothing
unfoldable pub without : ℕ → Text → Text
without c [] = []
without c (b ∷ s) = let rest = without c s in if nat_eq b c then rest else b ∷ rest
