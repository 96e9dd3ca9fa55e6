-- ===== src/Base/Arith.antt =====
-- The arithmetic of Go's int on the signed integers, where nothing overflows: the division truncates.
use Prim.Native.Nat.{ℕ, ◌+◌, ◌-◌, ◌*◌, ◌/◌, ◌≤◌, ◌<◌}
use mathlib.Core.Path.{◌≡◌}
use native.Mathlib.Omega.{arith}
use tds.Base.Tests.{leb, if◌then◌else◌}
use tds.Base.Int.{ℤ, pos, negsuc, pos_part, neg_part}

-- The difference of two numbers.
unfoldable pub diff : ℕ → ℕ → ℤ
diff a b = if leb b a then pos (a - b) else negsuc (b - a - 1)

infixl 6 ◌+ℤ◌ ◌-ℤ◌
infixl 7 ◌*ℤ◌
unfoldable pub ◌+ℤ◌ : ℤ → ℤ → ℤ
unfolding diff
a +ℤ b = diff (pos_part a + pos_part b) (neg_part a + neg_part b)

unfoldable pub ◌-ℤ◌ : ℤ → ℤ → ℤ
unfolding diff
a -ℤ b = diff (pos_part a + neg_part b) (neg_part a + pos_part b)

unfoldable pub ◌*ℤ◌ : ℤ → ℤ → ℤ
unfolding diff
a *ℤ b =
    diff (pos_part a * pos_part b + neg_part a * neg_part b)
      (pos_part a * neg_part b + neg_part a * pos_part b)

-- Division by a positive number, towards zero.
unfoldable pub quot : ℤ → ℕ → ℤ
unfolding diff
quot a n = diff (pos_part a / n) (neg_part a / n)

pub diff-pos : (a b : ℕ) → b ≤ a → diff a b ≡ pos (a - b)
unfolding diff
diff-pos a b h = ground arith

pub add-pos : (a b : ℕ) → pos a +ℤ pos b ≡ pos (a + b)
unfolding ◌+ℤ◌
add-pos a b = ground (arith, diff-pos (a + b) 0 (omega arith))

pub sub-pos : (a b : ℕ) → b ≤ a → pos a -ℤ pos b ≡ pos (a - b)
unfolding ◌-ℤ◌
sub-pos a b h = ground (arith, diff-pos a b h)

pub mul-pos : (a b : ℕ) → pos a *ℤ pos b ≡ pos (a * b)
unfolding ◌*ℤ◌
mul-pos a b = ground (arith, diff-pos (a * b) 0 (omega arith))

pub quot-pos : (a n : ℕ) → 0 < n → quot (pos a) n ≡ pos (a / n)
unfolding quot
quot-pos a n h = ground (arith, diff-pos (a / n) 0 (omega arith))

pub pos-sub : (a b : ℕ) → pos a -ℤ pos b ≡ diff a b
unfolding ◌-ℤ◌ diff
pos-sub a b = ground arith

pub diff-add : (a b c : ℕ) → diff a b +ℤ pos c ≡ diff (a + c) b
unfolding ◌+ℤ◌ diff
diff-add a b c = ground arith

pub diff-sub : (a b c : ℕ) → diff a b -ℤ pos c ≡ diff a (b + c)
unfolding ◌-ℤ◌ diff
diff-sub a b c = ground arith

pub pred-pos : (a : ℕ) → 1 ≤ a → pos a +ℤ negsuc 0 ≡ pos (a - 1)
unfolding ◌+ℤ◌ diff
pred-pos a h = ground arith

pub diff-same : (a b c d : ℕ) → a + d ≡ c + b → diff a b ≡ diff c d
unfolding diff
diff-same a b c d e = ground (arith, e)

-- A number of which the sum with c is a.
pub diff-sum : (a c : ℕ) (z : ℤ) → z +ℤ pos c ≡ pos a → diff a c ≡ z
unfolding ◌+ℤ◌ diff
diff-sum a c (pos n) h = ground (arith, h)
diff-sum a c (negsuc n) h = ground (arith, h)

pub add_assoc : (z : ℤ) (a b : ℕ) → z +ℤ pos a +ℤ pos b ≡ z +ℤ pos (a + b)
unfolding ◌+ℤ◌ diff
add_assoc (pos n) a b = ground arith
add_assoc (negsuc n) a b = ground arith

pub diff-bounds : (a b : ℕ) → (pos_part (diff a b) ≤ a) × (neg_part (diff a b) ≤ b)
unfolding diff
diff-bounds a b = (ground arith, ground arith)
