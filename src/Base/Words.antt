-- ===== src/Base/Words.antt =====
-- Little-endian words, as encoding/binary reads and writes them.
use Prim.Native.Nat.{ℕ, ◌+◌, ◌*◌, ◌/◌, ◌%◌, ◌<◌}
use mathlib.Core.List.{[], ◌∷◌}
use native.Mathlib.Omega.{arith}
use dc_1_pmos.Base.Lists.{Bytes, All}

abbrev pub IsByte : ℕ → Type 0
IsByte b = b < 256

abbrev pub u32_mod : ℕ
u32_mod = 4294967296

-- `binary.LittleEndian.PutUint32`, of the word's 32 bits.
unfoldable pub le32 : ℕ → Bytes
le32 n = n % 256 ∷ n / 256 % 256 ∷ n / 65536 % 256 ∷ n / 16777216 % 256 ∷ []

-- `binary.LittleEndian.Uint32` of four bytes.
unfoldable pub word32 : ℕ → ℕ → ℕ → ℕ → ℕ
word32 a b c d = a + 256 * b + 65536 * c + 16777216 * d

pub le32-IsByte : (n : ℕ) → All IsByte (le32 n)
unfolding le32
le32-IsByte n = omega arith
