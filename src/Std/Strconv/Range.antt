-- ===== src/Std/Strconv/Range.antt =====
-- What ParseInt returns is an int64.
use dc_1_pmos.Base.{
  ℕ, zero, suc, ◌<◌, ◌≡◌, Bool, true, false, Option, none, some, inl, inr, arith, Bytes, [], ◌∷◌,
  subst, ltb, ltb→lt, Bool-cases, ◌==◌, if◌then◌else◌,
}
use dc_1_pmos.Std.Strconv.{ℤ, pos, negsuc, int64_limit, signed, parse_uint, parse_int}

-- the range of an int64
abbrev pub IsInt64 : ℤ → Type 0
IsInt64 (pos n) = n < int64_limit
IsInt64 (negsuc n) = n < int64_limit

within :
    (n : ℕ) (z z' : ℤ)
    → (n < int64_limit → IsInt64 z)
    → (if ltb n int64_limit then some z else none) ≡ some z'
    → IsInt64 z'
within n z z' fits h = elim (Bool-cases (ltb n int64_limit)) [
  | inl lt ↦
      let e : some z ≡ some z' = rw lt at h in
      let e' : z ≡ z' = cc in subst IsInt64 e' (fits (ltb→lt _ _ lt))
  | inr ge ↦ let bad : none ≡ some z' = rw ge at h in cc
]

signed-IsInt64 : (neg : Bool) (o : Option ℕ) (z : ℤ) → signed neg o ≡ some z → IsInt64 z
unfolding signed
signed-IsInt64 neg none z h = cc
signed-IsInt64 false (some n) z h = within n (pos n) z (λ lt. lt) h
signed-IsInt64 true (some zero) z h = let e : pos 0 ≡ z = cc in subst IsInt64 e (omega arith)
signed-IsInt64 true (some (suc n)) z h = within n (negsuc n) z (λ lt. lt) h

pub parse_int-IsInt64 : (s : Bytes) (z : ℤ) → parse_int s ≡ some z → IsInt64 z
unfolding parse_int
parse_int-IsInt64 [] z h = cc
parse_int-IsInt64 (c ∷ cs) z h = elim (Bool-cases (c == b'-')) [
  | inl e ↦ signed-IsInt64 true (parse_uint cs) z (rw e at h)
  | inr e ↦ elim (Bool-cases (c == b'+')) [
    | inl e' ↦ signed-IsInt64 false (parse_uint cs) z (rw e' at (rw e at h))
    | inr e' ↦ signed-IsInt64 false (parse_uint (c ∷ cs)) z (rw e' at (rw e at h))
  ]
]
