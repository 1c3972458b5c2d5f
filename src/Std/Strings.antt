-- ===== src/Std/Strings.antt =====
-- bufio.Reader.ReadString and the functions of package strings that the parsers call.
pub mod Laws
use dc_1_pmos.Base.{
  ℕ, Bool, true, false, List, [], ◌∷◌, ◌++◌, ◌||◌, Option, none, some, ◌==◌, if◌then◌else◌, Bytes,
  bytes_equal,
}

-- Put a byte in front of the first part of a result that is a pair of texts.
unfoldable pub cons_first : ℕ → Option (Bytes × Bytes) → Option (Bytes × Bytes)
cons_first c none = none
cons_first c (some (a, b)) = some (c ∷ a, b)

-- ReadString('\n'): the line with its end, and what follows; `none` is io.EOF before a newline.
unfoldable pub read_line : Bytes → Option (Bytes × Bytes)
unfolding cons_first
read_line [] = none
read_line (c ∷ cs) =
    let more = cons_first c (read_line cs) in if c == b'\n' then some (c ∷ [], cs) else more

-- TrimRight(s, cutset), the cut set as a test
unfoldable pub trim_right : (ℕ → Bool) → Bytes → Bytes
trim_right cut [] = []
trim_right cut (c ∷ cs) = elim (trim_right cut cs) [
  | [] ↦ if cut c then [] else c ∷ []
  | d ∷ ds ↦ c ∷ d ∷ ds
]

-- TrimLeft(s, cutset)
unfoldable pub trim_left : (ℕ → Bool) → Bytes → Bytes
trim_left cut [] = []
trim_left cut (c ∷ cs) = let more = trim_left cut cs in if cut c then more else c ∷ cs

abbrev pub is_crlf : ℕ → Bool
is_crlf c = c == b'\r' || c == b'\n'

-- unicode.IsSpace on ASCII, as TrimSpace uses it
abbrev pub is_space : ℕ → Bool
is_space c = c == b' ' || c == b'\t' || c == b'\n' || c == 11 || c == 12 || c == b'\r'

unfoldable pub trim_space : Bytes → Bytes
unfolding trim_left trim_right
trim_space s = trim_right is_space (trim_left is_space s)

-- Cut(s, sep) for a separator of one byte
unfoldable pub cut : ℕ → Bytes → Option (Bytes × Bytes)
unfolding cons_first
cut sep [] = none
cut sep (c ∷ cs) = let more = cons_first c (cut sep cs) in if c == sep then some ([], cs) else more

-- Split(s, "\n")
cons_line : ℕ → List Bytes → List Bytes
cons_line c [] = (c ∷ []) ∷ []
cons_line c (l ∷ ls) = (c ∷ l) ∷ ls

unfoldable pub split_lines : Bytes → List Bytes
unfolding cons_line
split_lines [] = [] ∷ []
split_lines (c ∷ cs) =
    let rest = split_lines cs in if c == b'\n' then [] ∷ rest else cons_line c rest

-- CutPrefix(s, prefix)
unfoldable pub cut_prefix : Bytes → Bytes → Option Bytes
cut_prefix [] s = some s
cut_prefix (p ∷ ps) [] = none
cut_prefix (p ∷ ps) (c ∷ cs) = let more = cut_prefix ps cs in if p == c then more else none
