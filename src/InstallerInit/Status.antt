-- ===== src/InstallerInit/Status.antt =====
-- StatusLines, ProgressPct, the width of the progress bar and utoa of
-- installer/gotools/internal/installerinit/paint.go.
use dc_1_pmos.Base.{
  ℕ, zero, suc, ◌+◌, ◌-◌, ◌*◌, ◌/◌, ◌%◌, Bool, true, false, ◌||◌, List, [], ◌∷◌, ◌++◌, Option, none,
  some, if◌then◌else◌, Bytes, codes, ltb, ◌==◌,
}
use dc_1_pmos.Std.Strings.{trim_right, trim_space, split_lines, cut_prefix}
use dc_1_pmos.Std.Strconv.{ℤ, pos, negsuc, parse_int}

abbrev pub max_status_lines : ℕ
max_status_lines = 8

abbrev pub default_status : Bytes
default_status = codes "WAITING FOR HOST"

-- the cut set "\r "
unfoldable pub is_blank : ℕ → Bool
is_blank c = c == 13 || c == 32

unfoldable pub trim_line : Bytes → Bytes
trim_line line = trim_right is_blank line

unfoldable pub progress_value : Bytes → Option Bytes
progress_value line = cut_prefix (codes "PROGRESS ") line

-- The line is shown: it is neither empty nor one of progress.
unfoldable pub is_shown : Bytes → Bool
is_shown [] = false
is_shown (c ∷ cs) = elim (progress_value (c ∷ cs)) [ none ↦ true | some v ↦ false ]

-- the loop of StatusLines, which stops at `room` lines
unfoldable pub shown_lines : ℕ → List Bytes → List Bytes
shown_lines zero ls = []
shown_lines (suc room) [] = []
shown_lines (suc room) (l ∷ ls) =
    let more = shown_lines room ls in
    let skipped = shown_lines (suc room) ls in
    if is_shown (trim_line l) then trim_line l ∷ more else skipped

unfoldable pub or_default : List Bytes → List Bytes
or_default [] = default_status ∷ []
or_default (l ∷ ls) = l ∷ ls

unfoldable pub status_lines : Bytes → List Bytes
status_lines status = or_default (shown_lines max_status_lines (split_lines status))

-- Atoi of an int of 64 bits
unfoldable pub percent_of : Option ℤ → Option ℕ
percent_of none = none
percent_of (some (negsuc n)) = none
percent_of (some (pos n)) = some (if ltb 100 n then 100 else n)

unfoldable pub line_percent : Option Bytes → Option ℕ
line_percent none = none
line_percent (some rest) = percent_of (parse_int (trim_space rest))

-- the loop of ProgressPct: the last value found
unfoldable pub last_percent : Option ℕ → List Bytes → Option ℕ
last_percent found [] = found
last_percent found (l ∷ ls) = elim (line_percent (progress_value (trim_line l))) [
  | none ↦ last_percent found ls
  | some n ↦ last_percent (some n) ls
]

unfoldable pub progress_pct : Bytes → Option ℕ
progress_pct status = last_percent none (split_lines status)

-- drawProgress: the width that is filled, of a panel of width `w`; `none` where nothing is drawn
unfoldable pub filled : ℕ → Option ℕ → ℕ
filled inner none = 0
filled inner (some pct) = inner * (if ltb 100 pct then 100 else pct) / 100

unfoldable pub bar_width : ℕ → Option ℕ → Option (ℕ × ℕ)
bar_width w pct =
    let inner = w - 80 - 4 in if ltb (w - 80) 6 then none else some (inner, filled inner pct)

-- utoa: the digits, least significant first, with `fuel` digits at most
unfoldable pub digits_of : ℕ → ℕ → Bytes
digits_of zero v = []
digits_of (suc fuel) v =
    let more = digits_of fuel (v / 10) in if v == 0 then [] else more ++ ((48 + v % 10) ∷ [])

unfoldable pub utoa : ℕ → Bytes
utoa v = if v == 0 then codes "0" else digits_of 20 v
