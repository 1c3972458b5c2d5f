-- ===== src/Std/Base64.antt =====
-- base64.StdEncoding: DecodeString, and the encoding that it reads back.
pub mod RoundTrip
use dc_1_pmos.Base.{
  ℕ, zero, suc, ◌+◌, ◌-◌, ◌*◌, ◌/◌, ◌%◌, Bool, true, false, List, [], ◌∷◌, ◌++◌, ◌||◌, ◌&&◌, Option,
  none, some, leb, ltb, ◌==◌, if◌then◌else◌, Bytes,
}
use dc_1_pmos.Std.Strings.{is_crlf}

-- The value of a byte of the alphabet.
unfoldable pub sextet : ℕ → Option ℕ
sextet c =
    if leb b'A' c && leb c b'Z'
    then some (c - 65)
    else if leb b'a' c && leb c b'z'
    then some (c - 71)
    else if leb b'0' c && leb c b'9'
    then some (c + 4)
    else if c == b'+'
    then some 62
    else if c == b'/'
    then some 63
    else none

infixl 5 ◌>>=◌
abbrev ◌>>=◌ {ℓ κ} : {A : Type ℓ} {B : Type κ} → Option A → (A → Option B) → Option B
none >>= f = none
some a >>= f = f a

-- The decoder skips carriage returns and newlines.
unfoldable pub drop_crlf : Bytes → Bytes
drop_crlf [] = []
drop_crlf (c ∷ cs) = let rest = drop_crlf cs in if is_crlf c then rest else c ∷ rest

decode_one : ℕ → ℕ → Option Bytes
decode_one a b = do x ← sextet a; y ← sextet b; some ((x * 4 + y / 16) ∷ [])

decode_two : ℕ → ℕ → ℕ → Option Bytes
decode_two a b c = do
  x ← sextet a
  y ← sextet b
  z ← sextet c
  some ((x * 4 + y / 16) ∷ (y % 16 * 16 + z / 4) ∷ [])

-- A last quantum that ends in padding: one byte or two. Bits that are left over are not looked at.
decode_padded : ℕ → ℕ → ℕ → Option Bytes
unfolding decode_one decode_two
decode_padded a b c = if c == b'=' then decode_one a b else decode_two a b c

decode_full : ℕ → ℕ → ℕ → ℕ → Option Bytes → Option Bytes
decode_full a b c d rest = do
  x ← sextet a
  y ← sextet b
  z ← sextet c
  w ← sextet d
  more ← rest
  some ((x * 4 + y / 16) ∷ (y % 16 * 16 + z / 4) ∷ (z % 4 * 64 + w) ∷ more)

-- Quanta of four bytes; padding closes the text, and a quantum that is cut short is an error.
unfoldable pub decode_quanta : Bytes → Option Bytes
unfolding decode_padded decode_full
decode_quanta [] = some []
decode_quanta (a ∷ b ∷ c ∷ d ∷ []) =
    if d == b'=' then decode_padded a b c else decode_full a b c d (some [])
decode_quanta (a ∷ b ∷ c ∷ d ∷ e ∷ es) = decode_full a b c d (decode_quanta (e ∷ es))
decode_quanta _ = none

unfoldable pub decode : Bytes → Option Bytes
unfolding decode_quanta drop_crlf sextet
decode s = decode_quanta (drop_crlf s)

-- The alphabet, at a value below 64.
unfoldable pub letter : ℕ → ℕ
letter x =
    if ltb x 26
    then x + 65
    else if ltb x 52
    then x + 71
    else if ltb x 62
    then x - 4
    else if x == 62
    then b'+'
    else b'/'

unfoldable pub encode : Bytes → Bytes
unfolding letter
encode [] = []
encode (a ∷ []) = letter (a / 4) ∷ letter (a % 4 * 16) ∷ b'=' ∷ b'=' ∷ []
encode (a ∷ b ∷ []) =
    letter (a / 4) ∷ letter (a % 4 * 16 + b / 16) ∷ letter (b % 16 * 4) ∷ b'=' ∷ []
encode (a ∷ b ∷ c ∷ cs) =
    letter (a / 4)
    ∷ letter (a % 4 * 16 + b / 16)
    ∷ letter (b % 16 * 4 + c / 64)
    ∷ letter (c % 64)
    ∷ encode cs
