-- ===== src/Std/Strconv.antt =====
-- strconv.ParseInt(s, 10, 64), and the decimal text that it reads back.
pub mod Range
pub mod RoundTrip
use dc_1_pmos.Base.{
  ℕ, zero, suc, ◌+◌, ◌-◌, ◌*◌, ◌/◌, ◌%◌, ◌^◌, Bool, true, false, List, [], ◌∷◌, ◌++◌, ◌||◌, ◌&&◌,
  Option, none, some, leb, ltb, ◌==◌, if◌then◌else◌, Bytes,
}

-- int64 as an integer; `negsuc n` is -(n + 1).
pub data ℤ : Type 0 where
  pos : ℕ → ℤ
  negsuc : ℕ → ℤ

-- 2^63, the first number that an int64 does not hold
abbrev pub int64_limit : ℕ
int64_limit = 9223372036854775808

abbrev pub is_digit : ℕ → Bool
is_digit c = leb b'0' c && leb c b'9'

-- The loop of ParseUint. It also stops where the number leaves 64 bits, which is an error like a
-- byte that is no digit; here the limits are tested at the end, on the whole number.
unfoldable pub digits_value : ℕ → Bytes → Option ℕ
digits_value n [] = some n
digits_value n (c ∷ cs) =
    let more = digits_value (n * 10 + (c - 48)) cs in if is_digit c then more else none

unfoldable pub parse_uint : Bytes → Option ℕ
unfolding digits_value
parse_uint [] = none
parse_uint (c ∷ cs) = digits_value 0 (c ∷ cs)

-- the range of an int64, on the absolute value
signed : Bool → Option ℕ → Option ℤ
signed neg none = none
signed false (some n) = if ltb n int64_limit then some (pos n) else none
signed true (some zero) = some (pos 0)
signed true (some (suc n)) = if ltb n int64_limit then some (negsuc n) else none

unfoldable pub parse_int : Bytes → Option ℤ
unfolding signed parse_uint
parse_int [] = none
parse_int (c ∷ cs) =
    if c == b'-'
    then signed true (parse_uint cs)
    else if c == b'+'
    then signed false (parse_uint cs)
    else signed false (parse_uint (c ∷ cs))

-- The decimal text of a number, most significant digit first; `fuel` bounds the digits.
decimal_of : ℕ → ℕ → Bytes
decimal_of zero n = (n % 10 + 48) ∷ []
decimal_of (suc fuel) n =
    let front = decimal_of fuel (n / 10) in
    if ltb n 10 then (n + 48) ∷ [] else front ++ (n % 10 + 48) ∷ []

unfoldable pub decimal : ℕ → Bytes
unfolding decimal_of
decimal n = decimal_of n n
