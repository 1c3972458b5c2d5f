-- ===== src/Ask/Layout.antt =====
-- installer/gotools/internal/ask/layout.go, with inRect of draw.go and fitScale of font.go: the places of the
-- buttons and lines, and the editor of the entry. The width of a text is a parameter.
use Prim.Native.Nat.{bit_xor}
use dc_1_pmos.Base.{
  ℕ, zero, suc, ◌+◌, ◌-◌, ◌*◌, ◌/◌, Bool, true, false, ◌&&◌, List, [], ◌∷◌, ◌++◌, map, Option, none,
  some, if◌then◌else◌, Bytes, length, drop, leb, ltb, ◌==◌,
}
use dc_1_pmos.Std.Strconv.{ℤ, pos, negsuc}
use dc_1_pmos.Std.Ints.{lt, le, add, sub, over}

unfoldable pub in_rect : ℤ → ℤ → ℤ → ℤ → ℤ → ℤ → Bool
in_rect x y rx ry rw rh = le rx x && (lt x (add rx rw) && (le ry y && lt y (add ry rh)))

abbrev pub max_text : ℕ
max_text = 63

abbrev pub menu_page : ℕ
menu_page = 6

-- menuGeom, of which x, h, gap and y0 are constants
pub record MenuGeom : Type 0 where
  pub width : ℤ
  pub more_y : ℕ
  pub pages : ℕ

unfoldable pub at_least_one : ℕ → ℕ
at_least_one zero = 1
at_least_one (suc n) = suc n

unfoldable pub new_menu_geom : ℕ → ℕ → MenuGeom
new_menu_geom fbw n = record {
  width = sub (pos fbw) (pos 80);
  more_y = 220 + menu_page * 154 + 20;
  pages = at_least_one ((n + menu_page - 1) / menu_page);
}

-- the options on a page; a difference below zero counts as none
unfoldable pub count : ℕ → ℕ → ℕ
count page n = let c = n - page * menu_page in if ltb menu_page c then menu_page else c

unfoldable pub button_y : ℕ → ℕ
button_y i = 220 + i * 154

-- a tap on the button at a height
unfoldable pub on_button : MenuGeom → ℕ → ℤ → ℤ → Bool
on_button g top x y = in_rect x y (pos 40) (pos top) g.width (pos 130)

-- the loop over the buttons, from `i` on
unfoldable pub find_button : MenuGeom → ℕ → ℕ → ℤ → ℤ → Option ℕ
find_button g i zero x y = none
find_button g i (suc left) x y =
    let later = find_button g (suc i) left x y in
    if on_button g (button_y i) x y then some i else later

-- What a tap on a menu hits.
pub data Hit : Type 0 where
  option : ℕ → Hit
  more missed : Hit

unfoldable pub hit_more : MenuGeom → ℤ → ℤ → Hit
hit_more g x y = if ltb 1 g.pages && on_button g g.more_y x y then more else missed

unfoldable pub hit : MenuGeom → ℕ → ℕ → ℤ → ℤ → Hit
hit g page n x y = elim (find_button g 0 (count page n) x y) [
  | some i ↦ option (page * menu_page + i)
  | none ↦ hit_more g x y
]

-- fitScale: at most `s - floor` steps down
unfoldable pub fit_scale : (ℕ → Bytes → ℤ) → ℕ → ℕ → Bytes → ℤ → ℕ
fit_scale width floor zero label max_w = floor
fit_scale width floor (suc steps) label max_w =
    let smaller = fit_scale width floor steps label max_w in
    if lt max_w (width (floor + suc steps) label) then smaller else floor + suc steps

pub record InfoLine : Type 0 where
  pub top : ℕ
  pub scale : ℕ
  pub text : Bytes

-- infoLayout: the loop, from a height on
unfoldable pub place_lines : (ℕ → Bytes → ℤ) → ℕ → ℤ → ℕ → List Bytes → List InfoLine
place_lines width fbw ok_y y [] = []
place_lines width fbw ok_y y (l ∷ ls) =
    let rest = place_lines width fbw ok_y (y + 60) ls in
    let line : InfoLine = record {
      top = y;
      scale = fit_scale width 1 2 l (sub (pos fbw) (pos 80));
      text = l;
    } in
    if le (sub ok_y (pos 40)) (pos y) then [] else line ∷ rest

unfoldable pub info_layout : (ℕ → Bytes → ℤ) → ℕ → ℕ → List Bytes → List InfoLine × ℤ
info_layout width fbw fbh lines =
    let ok_y = sub (pos fbh) (pos 200) in (place_lines width fbw ok_y 220 lines, ok_y)

-- entryTail, for a scale above zero
unfoldable pub columns : ℤ → ℕ
columns (pos n) = n
columns (negsuc n) = 0

unfoldable pub entry_tail : Bytes → ℕ → ℕ → Bytes
entry_tail shown fbw s =
    let max_cols = columns (over (sub (pos fbw) (pos 120)) (6 * s)) in
    if ltb max_cols (length shown) then drop (length shown - max_cols) shown else shown

pub record Editor : Type 0 where
  pub buf : Bytes
  pub layer : ℕ
  pub shifted : ℕ

abbrev pub key_none : ℕ
key_none = 0

abbrev pub key_shift : ℕ
key_shift = 1

abbrev pub key_sym : ℕ
key_sym = 2

abbrev pub key_bs : ℕ
key_bs = 3

abbrev pub key_ok : ℕ
key_ok = 4

unfoldable pub drop_last : Bytes → Bytes
drop_last [] = []
drop_last (c ∷ []) = []
drop_last (c ∷ d ∷ cs) = c ∷ drop_last (d ∷ cs)

unfoldable pub is_printable : ℕ → Bool
is_printable k = leb 32 k && leb k 126

unfoldable pub type_key : Editor → ℕ → Editor
type_key e k =
    if is_printable k && ltb (length e.buf) max_text
    then record e { buf = e.buf ++ (k ∷ []); shifted = 0 }
    else e

-- editor.key: the editor behind a key, and whether the entry was accepted
unfoldable pub press : Editor → ℕ → Editor × Bool
press e k =
    if k == key_none
    then (e, false)
    else if k == key_shift
    then (record e { shifted = bit_xor e.shifted 1 }, false)
    else if k == key_sym
    then (record e { layer = bit_xor e.layer 1; shifted = 0 }, false)
    else if k == key_bs
    then (record e { buf = drop_last e.buf }, false)
    else if k == key_ok
    then (e, true)
    else (type_key e k, false)

-- editor.masked
unfoldable pub masked : Editor → Bool → Bytes
masked e false = e.buf
masked e true = map (λ c. b'*') e.buf
