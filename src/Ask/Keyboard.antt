-- ===== src/Ask/Keyboard.antt =====
-- installer/gotools/internal/ask/keyboard.go: the layout of the keys and the key that a tap hits. `none`
-- stands for a panic: a division by zero, or an index out of range.
use dc_1_pmos.Base.{
  ℕ, zero, suc, ◌-◌, ◌*◌, ◌/◌, List, [], ◌∷◌, ◌++◌, Option, none, some, if◌then◌else◌, Bytes, codes,
  ltb, ◌==◌,
}
use dc_1_pmos.Std.Strconv.{ℤ, pos, negsuc}
use dc_1_pmos.Std.Ints.{lt, sub, over}
use dc_1_pmos.Ask.Layout.{key_none, key_sym, key_ok, key_shift, key_bs}

abbrev pub digits_row : Bytes
digits_row = codes "1234567890"

abbrev pub rows_lower : List Bytes
rows_lower =
    digits_row
    ∷ codes "qwertyuiop"
    ∷ codes "asdfghjkl-"
    ∷ (key_shift ∷ (codes "zxcvbnm." ++ (key_bs ∷ [])))
    ∷ []

abbrev pub rows_upper : List Bytes
rows_upper =
    digits_row
    ∷ codes "QWERTYUIOP"
    ∷ codes "ASDFGHJKL-"
    ∷ (key_shift ∷ (codes "ZXCVBNM." ++ (key_bs ∷ [])))
    ∷ []

abbrev pub rows_sym : List Bytes
rows_sym =
    digits_row
    ∷ codes "!@#$%^&*()"
    ∷ codes "-_=+[]{};:"
    ∷ (key_sym ∷ (39 ∷ 34 ∷ 44 ∷ 60 ∷ 62 ∷ 47 ∷ 63 ∷ 92 ∷ key_bs ∷ []))
    ∷ []

-- kbRows
unfoldable pub kb_rows : ℕ → ℕ → List Bytes
kb_rows layer shifted =
    if layer == 0 then (if shifted == 0 then rows_lower else rows_upper) else rows_sym

pub record KbGeom : Type 0 where
  pub top : ℕ
  pub cell_w : ℕ
  pub cell_h : ℕ

unfoldable pub kb_geometry : ℕ → ℕ → KbGeom
kb_geometry w h =
    let cell_h = h / 11 in record { top = h - 5 * cell_h; cell_w = w / 10; cell_h = cell_h }

-- a byte of a row, or key_none behind its end
unfoldable pub in_row : Bytes → ℕ → ℕ
in_row [] c = key_none
in_row (b ∷ bs) zero = b
in_row (b ∷ bs) (suc c) = in_row bs c

unfoldable pub in_rows : List Bytes → ℕ → ℕ → ℕ
in_rows [] r c = key_none
in_rows (row ∷ rows) zero c = in_row row c
in_rows (row ∷ rows) (suc r) c = in_rows rows r c

-- the row of the space bar
unfoldable pub in_last_row : ℕ → ℕ → ℕ
in_last_row layer c =
    if ltb c 2
    then key_sym
    else if ltb c 7
    then b' '
    else if ltb c 8
    then (if layer == 0 then b'@' else b'~')
    else key_ok

-- behind the column: a column below zero is in range only in the last row
unfoldable pub key_at : ℕ → ℕ → ℕ → ℤ → Option ℕ
key_at layer shifted r (pos c) =
    let col = if ltb 9 c then 9 else c in
    if ltb r 4 then some (in_rows (kb_rows layer shifted) r col) else some (in_last_row layer col)
key_at layer shifted r (negsuc c) = if ltb r 4 then none else some key_sym

-- the row of a height; a height above the keyboard was handled before
unfoldable pub row_of : ℤ → ℕ → ℕ
row_of (pos d) cell_h = d / cell_h
row_of (negsuc d) cell_h = 0

-- kbHit
unfoldable pub kb_hit : KbGeom → ℕ → ℕ → ℤ → ℤ → Option ℕ
kb_hit g layer shifted x y =
    if lt y (pos g.top)
    then some key_none
    else if g.cell_h == 0
    then none
    else if g.cell_w == 0
    then none
    else key_at layer shifted (row_of (sub y (pos g.top)) g.cell_h) (over x g.cell_w)
