-- ===== src/Std/Strconv/RoundTrip.antt =====
-- ParseInt reads back the decimal text of every number that fits.
use dc_1_pmos.Base.{
  ℕ, zero, suc, ◌+◌, ◌-◌, ◌*◌, ◌/◌, ◌%◌, ◌≤◌, ◌<◌, ◌≡◌, ◌≢◌, refl, ap, ◌∙◌, true, false, [], ◌∷◌,
  ◌++◌, none, some, ltb, ◌==◌, Bytes, All, All-append, inl, inr, Bool-cases, arith, lt→ltb,
}
use dc_1_pmos.Std.Strconv.{pos, int64_limit, is_digit, digits_value, parse_int, decimal_of, decimal}

abbrev pub IsDigit : ℕ → Type 0
IsDigit c = is_digit c ≡ true

digits_value-concat :
    (xs : Bytes) (n v c : ℕ)
    → digits_value n xs ≡ some v
    → IsDigit c
    → digits_value n (xs ++ c ∷ []) ≡ some (v * 10 + (c - 48))
unfolding digits_value
digits_value-concat [] n v c h d = ground arith
digits_value-concat (x ∷ xs) n v c h d = elim (Bool-cases (is_digit x)) [
  | inl e ↦ rw e (digits_value-concat xs (n * 10 + (x - 48)) v c (rw e at h) d)
  | inr e ↦ let bad : none ≡ some v = rw e at h in cc
]

decimal_of-value : (fuel n : ℕ) → n ≤ fuel → digits_value 0 (decimal_of fuel n) ≡ some n
unfolding decimal_of
decimal_of-value zero n h = unfold digits_value in ground arith
decimal_of-value (suc fuel) n h = elim (Bool-cases (ltb n 10)) [
  | inl small ↦ rw small (unfold digits_value in ground arith)
  | inr large ↦
      let ih = decimal_of-value fuel (n / 10) (ground arith) in
      let v : n / 10 * 10 + (n % 10 + 48 - 48) ≡ n = omega arith in
      rw large (digits_value-concat _ 0 (n / 10) (n % 10 + 48) ih (ground arith) ∙ ap some v)
]

decimal_of-IsDigit : (fuel n : ℕ) → All IsDigit (decimal_of fuel n)
unfolding decimal_of
decimal_of-IsDigit zero n = (ground arith, tt)
decimal_of-IsDigit (suc fuel) n = elim (Bool-cases (ltb n 10)) [
  | inl small ↦ rw small (ground arith, tt)
  | inr large ↦ rw large (
      All-append IsDigit (decimal_of fuel (n / 10)) _ (decimal_of-IsDigit fuel (n / 10))
        (ground arith, tt))
]

pub decimal-IsDigit : (n : ℕ) → All IsDigit (decimal n)
unfolding decimal
decimal-IsDigit n = decimal_of-IsDigit n n

pub decimal-value : (n : ℕ) → digits_value 0 (decimal n) ≡ some n
unfolding decimal
decimal-value n = decimal_of-value n n (omega arith)

pub parse_int_digits :
    (s : Bytes) (n : ℕ)
    → s ≢ []
    → All IsDigit s
    → digits_value 0 s ≡ some n
    → n < int64_limit
    → parse_int s ≡ some (pos n)
unfolding parse_int
parse_int_digits [] n ne h v lt = absurd (ne refl)
parse_int_digits (c ∷ cs) n ne h v lt =
    let minus : (c == b'-') ≡ false = ground arith in
    let plus : (c == b'+') ≡ false = ground arith in
    rw minus (rw plus (rw v (rw (lt→ltb n int64_limit lt))))

concat-ne-nil : (xs : Bytes) (c : ℕ) → xs ++ c ∷ [] ≢ []
concat-ne-nil [] c e = cc
concat-ne-nil (x ∷ xs) c e = cc

decimal_of-ne-nil : (fuel n : ℕ) → decimal_of fuel n ≢ []
unfolding decimal_of
decimal_of-ne-nil zero n = λ e. cc
decimal_of-ne-nil (suc fuel) n = elim (Bool-cases (ltb n 10)) [
  | inl small ↦ rw small (λ e. cc)
  | inr large ↦ rw large (concat-ne-nil (decimal_of fuel (n / 10)) (n % 10 + 48))
]

decimal-ne-nil : (n : ℕ) → decimal n ≢ []
unfolding decimal
decimal-ne-nil n e = decimal_of-ne-nil n n e

-- Every number that an int64 holds is read back from its decimal text.
pub parse_int-decimal : (n : ℕ) → n < int64_limit → parse_int (decimal n) ≡ some (pos n)
parse_int-decimal n h =
    parse_int_digits (decimal n) n (decimal-ne-nil n) (decimal-IsDigit n) (decimal-value n) h
