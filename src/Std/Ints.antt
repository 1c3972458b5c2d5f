-- ===== src/Std/Ints.antt =====
-- Go's int, of 64 bits, in the range that no sum or product here leaves: comparison, sums, products, and the
-- division that rounds towards zero.
use dc_1_pmos.Base.{ℕ, zero, suc, ◌+◌, ◌-◌, ◌*◌, ◌/◌, Bool, true, false, not, ltb, if◌then◌else◌}
use dc_1_pmos.Std.Strconv.{ℤ, pos, negsuc}

-- a < b
unfoldable pub lt : ℤ → ℤ → Bool
lt (pos m) (pos n) = ltb m n
lt (pos m) (negsuc n) = false
lt (negsuc m) (pos n) = true
lt (negsuc m) (negsuc n) = ltb n m

-- a <= b
unfoldable pub le : ℤ → ℤ → Bool
le a b = not (lt b a)

-- the difference of two natural numbers
unfoldable pub difference : ℕ → ℕ → ℤ
difference m n = if ltb m n then negsuc (n - m - 1) else pos (m - n)

unfoldable pub neg : ℤ → ℤ
neg (pos zero) = pos zero
neg (pos (suc n)) = negsuc n
neg (negsuc n) = pos (suc n)

unfoldable pub add : ℤ → ℤ → ℤ
add (pos m) (pos n) = pos (m + n)
add (pos m) (negsuc n) = difference m (suc n)
add (negsuc m) (pos n) = difference n (suc m)
add (negsuc m) (negsuc n) = negsuc (suc (m + n))

unfoldable pub sub : ℤ → ℤ → ℤ
sub a b = add a (neg b)

-- a * n, and a / n rounded towards zero
unfoldable pub times : ℤ → ℕ → ℤ
times (pos m) n = pos (m * n)
times (negsuc m) n = neg (pos (suc m * n))

unfoldable pub over : ℤ → ℕ → ℤ
over (pos m) n = pos (m / n)
over (negsuc m) n = neg (pos (suc m / n))
