-- ===== src/Ask/Dialogs.antt =====
-- installer/gotools/internal/ask/ask.go: the dialogs over the taps that arrive, which end in an error, and
-- their dispatch. `crashed` is a panic.
use dc_1_pmos.Base.{
  ℕ, ◌+◌, ◌%◌, Bool, true, false, List, [], ◌∷◌, ◌++◌, Option, none, some, if◌then◌else◌, Bytes,
  codes, bytes_equal, length, take, ltb,
}
use dc_1_pmos.Std.Strconv.{ℤ, pos, decimal}
use dc_1_pmos.Std.Ints.{sub}
use dc_1_pmos.Ask.Layout.{
  in_rect, max_text, new_menu_geom, MenuGeom, option, more, missed, hit, info_layout, Editor, press,
}
use dc_1_pmos.Ask.Keyboard.{KbGeom, kb_geometry, kb_hit}

abbrev pub Tap : Type 0
Tap = ℤ × ℤ

-- How a dialog ends: with an answer, cancelled, at the end of the taps, or in a panic.
pub data Ended {ℓ} (A : Type ℓ) : Type ℓ where
  answered : A → Ended A
  cancelled no_tap crashed : Ended A

-- ui.menu from a page on
unfoldable pub menu_from : MenuGeom → ℕ → ℕ → List Tap → Ended ℕ
menu_from g n page [] = no_tap
menu_from g n page ((x, y) ∷ taps) = elim (hit g page n x y) [
  | option i ↦ answered i
  | more ↦ menu_from g n ((page + 1) % g.pages) taps
  | missed ↦ menu_from g n page taps
]

unfoldable pub menu : ℕ → ℕ → List Tap → Ended ℕ
menu fbw n taps = menu_from (new_menu_geom fbw n) n 0 taps

-- ui.info
unfoldable pub wait_ok : MenuGeom → ℤ → List Tap → Ended (Unit {0})
wait_ok g ok_y [] = no_tap
wait_ok g ok_y ((x, y) ∷ taps) =
    let later = wait_ok g ok_y taps in
    if in_rect x y (pos 40) ok_y g.width (pos 130) then answered tt else later

unfoldable pub info : (ℕ → Bytes → ℤ) → ℕ → ℕ → List Bytes → List Tap → Ended (Unit {0})
info width fbw fbh lines taps =
    wait_ok (new_menu_geom fbw 0) (info_layout width fbw fbh lines).1 taps

-- the initial text of the editor
unfoldable pub initial_editor : Bytes → Bool → Editor
initial_editor initial true = record { buf = []; layer = 0; shifted = 0 }
initial_editor initial false = record {
  buf = if ltb max_text (length initial) then take max_text initial else initial;
  layer = 0;
  shifted = 0;
}

-- the box of the X
unfoldable pub on_cancel : ℕ → ℤ → ℤ → Bool
on_cancel w x y = in_rect x y (sub (pos w) (pos 140)) (pos 30) (pos 100) (pos 100)

unfoldable pub after_key : Editor × Bool → (Editor → Ended Bytes) → Ended Bytes
after_key (e, true) rest = answered e.buf
after_key (e, false) rest = rest e

unfoldable pub after_hit : Editor → Option ℕ → (Editor → Ended Bytes) → Ended Bytes
after_hit e none rest = crashed
after_hit e (some k) rest = after_key (press e k) rest

-- the loop of ui.text
unfoldable pub edit : ℕ → KbGeom → List Tap → Editor → Ended Bytes
edit w g [] e = no_tap
edit w g ((x, y) ∷ taps) e =
    if on_cancel w x y
    then cancelled
    else after_hit e (kb_hit g e.layer e.shifted x y) (edit w g taps)

-- ui.text
unfoldable pub enter_text : ℕ → ℕ → Bytes → Bool → List Tap → Ended Bytes
enter_text w h initial secret taps = edit w (kb_geometry w h) taps (initial_editor initial secret)

-- run: the exit code and the standard output, `none` being a panic
unfoldable pub exit_of : Ended Bytes → Option (ℕ × Bytes)
exit_of (answered out) = some (0, out)
exit_of cancelled = some (1, [])
exit_of no_tap = some (2, [])
exit_of crashed = none

unfoldable pub line_of : Ended Bytes → Ended Bytes
line_of (answered out) = answered (out ++ (b'\n' ∷ []))
line_of e = e

unfoldable pub number_of : Ended ℕ → Ended Bytes
number_of (answered n) = answered (decimal n)
number_of cancelled = cancelled
number_of no_tap = no_tap
number_of crashed = crashed

unfoldable pub silent : Ended (Unit {0}) → Ended Bytes
silent (answered u) = answered []
silent cancelled = cancelled
silent no_tap = no_tap
silent crashed = crashed

unfoldable pub first_or_empty : List Bytes → Bytes
first_or_empty [] = []
first_or_empty (a ∷ rest) = a

unfoldable pub run_menu : ℕ → List Bytes → List Tap → Option (ℕ × Bytes)
run_menu w [] taps = some (2, [])
run_menu w (o ∷ os) taps = exit_of (line_of (number_of (menu w (length (o ∷ os)) taps)))

module _ (width : ℕ → Bytes → ℤ) (w h : ℕ) (taps : List Tap) where
  unfoldable pub run_mode : Bytes → List Bytes → Option (ℕ × Bytes)
  run_mode mode rest =
      if bytes_equal mode (codes "menu")
      then run_menu w rest taps
      else if bytes_equal mode (codes "text")
      then exit_of (line_of (enter_text w h (first_or_empty rest) false taps))
      else if bytes_equal mode (codes "secret")
      then exit_of (line_of (enter_text w h [] true taps))
      else if bytes_equal mode (codes "info")
      then exit_of (silent (info width w h rest taps))
      else some (2, [])

  -- run: two arguments at least, or an index is out of range
  unfoldable pub run : List Bytes → Option (ℕ × Bytes)
  run (mode ∷ title ∷ rest) = run_mode mode rest
  run _ = none
