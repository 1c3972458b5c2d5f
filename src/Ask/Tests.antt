-- ===== src/Ask/Tests.antt =====
-- Dialogs of the package ask on a panel of 1200 by 1600 pixels.
use dc_1_pmos.Base.{ℕ, ◌<◌, ◌≡◌, refl, false, List, [], ◌∷◌, some, codes, arith}
use dc_1_pmos.Std.Strconv.{pos, negsuc}
use dc_1_pmos.Std.Ints.{lt, le, add, sub, neg, difference, over}
use dc_1_pmos.Ask.Layout.{
  in_rect, new_menu_geom, at_least_one, count, button_y, on_button, find_button, hit, hit_more,
  press, type_key, is_printable,
}
use dc_1_pmos.Ask.Keyboard.{
  kb_geometry, kb_hit, kb_rows, key_at, row_of, in_row, in_rows, in_last_row,
}
use dc_1_pmos.Ask.Taps.{IsTouched, IsAtRest, next_tap-IsTouched}
use dc_1_pmos.Ask.Touch.{InputEvent, TouchState, feed, feed_abs, feed_key, is_zero, next_tap, scale}
use dc_1_pmos.Ask.Dialogs.{
  Tap, answered, menu, menu_from, enter_text, edit, initial_editor, on_cancel, after_hit, after_key,
}
use dc_1_pmos.Ask.Choices.{IsTapped, menu-IsTapped}
use dc_1_pmos.Ask.Entries.{IsAnswer, enter_text-IsAnswer}
use dc_1_pmos.Ask.Scaling.{scale-on_panel}

-- a tap beside the buttons, one on MORE, and one on the first button of the second page
abbrev menu_taps : List Tap
menu_taps = (pos 5, pos 5) ∷ (pos 100, pos 1200) ∷ (pos 100, pos 230) ∷ []

chooses : menu 1200 7 menu_taps ≡ answered 6
unfolding menu menu_from new_menu_geom at_least_one hit hit_more find_button on_button button_y
    count in_rect le lt add sub neg difference
chooses = refl

menu-IsTapped_example : IsTapped (new_menu_geom 1200 7) 7 menu_taps 6
menu-IsTapped_example = menu-IsTapped 1200 7 menu_taps chooses

-- the keys q, shift, W, and OK
abbrev key_taps : List Tap
key_taps = (pos 10, pos 1050) ∷ (pos 10, pos 1320) ∷ (pos 130, pos 1050) ∷ (pos 1100, pos 1590) ∷ []

types : enter_text 1200 1600 (codes "a") false key_taps ≡ answered (codes "aqW")
unfolding enter_text edit kb_geometry kb_hit key_at kb_rows row_of in_row in_rows in_last_row over
    initial_editor on_cancel in_rect le lt add sub neg difference after_hit after_key press type_key
    is_printable
types = refl

enter_text-IsAnswer_example : IsAnswer (enter_text 1200 1600 (codes "a") false key_taps)
unfolding is_printable
enter_text-IsAnswer_example =
    enter_text-IsAnswer 1200 1600 (codes "a") false key_taps (omega arith) (omega arith) (refl, tt)
      ((10, refl), ((10, refl), ((130, refl), ((1100, refl), tt))))

scale-on_panel_example :
    (n : ℕ) × (scale (pos 711) (pos 0, pos 16384) 1200 ≡ some (pos n)) × (n < 1200)
unfolding le lt
scale-on_panel_example = scale-on_panel (pos 0) (pos 16384) (pos 711) 1200 refl refl (omega arith)

-- down, a frame, up, a frame
abbrev events : List InputEvent
events =
    record { kind = 3; code = 57; value = pos 4 }
    ∷ record { kind = 3; code = 53; value = pos 700 }
    ∷ record { kind = 0; code = 0; value = pos 0 }
    ∷ record { kind = 3; code = 57; value = negsuc 0 }
    ∷ record { kind = 0; code = 0; value = pos 0 }
    ∷ []

abbrev idle : TouchState
idle = record { x = pos 0; y = pos 0; down = false; was_down = false }

taps_once : next_tap idle events ≡ some (record idle { x = pos 700 }, [])
unfolding next_tap feed feed_abs feed_key is_zero le lt
taps_once = refl

next_tap-IsTouched_example : IsTouched events [] × IsAtRest (record idle { x = pos 700 })
next_tap-IsTouched_example =
    next_tap-IsTouched idle events taps_once (record { now = refl; last = refl })
