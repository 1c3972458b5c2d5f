-- ===== src/Ask/Scaling.antt =====
-- The position of a tap on the panel, as touch.go scales it.
use native.Mathlib.Nat.{mul_comm, mul-lt-mul_of_pos_left, div-lt_iff_lt-mul}
use dc_1_pmos.Base.{
  ℕ, zero, suc, ◌+◌, ◌-◌, ◌*◌, ◌/◌, ◌≤◌, ◌<◌, ◌≡◌, refl, ap, ◌∙◌, true, some, ltb, if_either, arith,
}
use dc_1_pmos.Std.Strconv.{ℤ, pos, negsuc}
use dc_1_pmos.Std.Ints.{lt, le, difference, neg, add, sub, times, over}
use dc_1_pmos.Ask.Touch.{divide, scale}

-- the distance of two integers, the first of which is the larger
gap : ℤ → ℤ → ℕ
gap (pos m) (pos n) = m - n
gap (pos m) (negsuc n) = m + suc n
gap (negsuc m) (pos n) = 0
gap (negsuc m) (negsuc n) = n - m

difference_ge : (m n : ℕ) → n ≤ m → difference m n ≡ pos (m - n)
unfolding difference
difference_ge m n h =
    if_either (λ (z : ℤ). z ≡ pos (m - n)) (ltb m n) (λ less. absurd (ground arith)) (λ more. refl)

sub-gap : (a b : ℤ) → le b a ≡ true → sub a b ≡ pos (gap a b)
unfolding le lt sub neg add gap
sub-gap (pos m) (pos zero) h = ap pos (omega arith)
sub-gap (pos m) (pos (suc n)) h = difference_ge m (suc n) (ground arith)
sub-gap (pos m) (negsuc n) h = ap pos (omega arith)
sub-gap (negsuc m) (pos n) h = absurd (ground arith)
sub-gap (negsuc m) (negsuc n) h =
    difference_ge (suc n) (suc m) (ground arith) ∙ ap pos (omega arith)

gap-lt : (lo raw hi : ℤ) → le lo raw ≡ true → lt raw hi ≡ true → gap raw lo < gap hi lo
unfolding le lt gap
gap-lt (pos l) (pos r) (pos h) low high = ground arith
gap-lt (pos l) (pos r) (negsuc h) low high = absurd (ground arith)
gap-lt (pos l) (negsuc r) (pos h) low high = absurd (ground arith)
gap-lt (pos l) (negsuc r) (negsuc h) low high = absurd (ground arith)
gap-lt (negsuc l) (pos r) (pos h) low high = ground arith
gap-lt (negsuc l) (pos r) (negsuc h) low high = absurd (ground arith)
gap-lt (negsuc l) (negsuc r) (pos h) low high = ground arith
gap-lt (negsuc l) (negsuc r) (negsuc h) low high = ground arith

le_trans : (lo raw hi : ℤ) → le lo raw ≡ true → lt raw hi ≡ true → le lo hi ≡ true
unfolding le lt
le_trans (pos l) (pos r) (pos h) low high = ground arith
le_trans (pos l) (pos r) (negsuc h) low high = absurd (ground arith)
le_trans (pos l) (negsuc r) (pos h) low high = absurd (ground arith)
le_trans (pos l) (negsuc r) (negsuc h) low high = absurd (ground arith)
le_trans (negsuc l) (pos r) (pos h) low high = refl
le_trans (negsuc l) (pos r) (negsuc h) low high = absurd (ground arith)
le_trans (negsuc l) (negsuc r) (pos h) low high = refl
le_trans (negsuc l) (negsuc r) (negsuc h) low high = ground arith

quotient_lt : (d e size : ℕ) → d < e → 0 < size → d * size / e < size
quotient_lt d e size h wide =
    let k : size * d < size * e = mul-lt-mul_of_pos_left h wide in
    let k' : d * size < size * e = omega (arith, k, mul_comm d size) in
    (div-lt_iff_lt-mul (omega (arith, h))).1 k'

divide_pos :
    (d e size : ℕ)
    → d < e
    → 0 < size
    → (n : ℕ) × (divide (pos (d * size)) (pos e) ≡ some (pos n)) × (n < size)
unfolding divide over
divide_pos d zero size h wide = absurd (omega arith)
divide_pos d (suc e) size h wide = (d * size / suc e, refl, quotient_lt d (suc e) size h wide)

-- A raw position from the least of its axis on, and below the greatest, is scaled without a division by zero
-- to a position on the panel.
pub scale-on_panel :
    (lo hi raw : ℤ) (size : ℕ)
    → le lo raw ≡ true
    → lt raw hi ≡ true
    → 0 < size
    → (n : ℕ) × (scale raw (lo, hi) size ≡ some (pos n)) × (n < size)
unfolding scale times
scale-on_panel lo hi raw size low high wide =
    rw (sub-gap raw lo low, sub-gap hi lo (le_trans lo raw hi low high))
      (divide_pos (gap raw lo) (gap hi lo) size (gap-lt lo raw hi low high) wide)
