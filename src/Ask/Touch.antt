-- ===== src/Ask/Touch.antt =====
-- installer/gotools/internal/ask/touch.go: the detector of taps, the decoding of an input event, the axes and
-- the scaling. What the event file holds is a parameter, as is the size of its timestamp.
use dc_1_pmos.Base.{
  ℕ, zero, suc, ◌+◌, ◌-◌, ◌*◌, ◌/◌, ◌%◌, ◌^◌, Bool, false, not, ◌&&◌, ◌||◌, List, [], ◌∷◌, Option,
  none, some, if◌then◌else◌, Bytes, get_or, drop, ltb, ◌==◌, word32,
}
use dc_1_pmos.Std.Strconv.{ℤ, pos, negsuc}
use dc_1_pmos.Std.Ints.{le, add, sub, times, over}

abbrev pub ev_syn : ℕ
ev_syn = 0

abbrev pub ev_key : ℕ
ev_key = 1

abbrev pub ev_abs : ℕ
ev_abs = 3

abbrev pub abs_x : ℕ
abs_x = 0

abbrev pub abs_y : ℕ
abs_y = 1

abbrev pub abs_mt_position_x : ℕ
abs_mt_position_x = 53

abbrev pub abs_mt_position_y : ℕ
abs_mt_position_y = 54

abbrev pub abs_mt_tracking_id : ℕ
abs_mt_tracking_id = 57

abbrev pub btn_touch : ℕ
btn_touch = 330

pub record TouchState : Type 0 where
  pub x : ℤ
  pub y : ℤ
  pub down : Bool
  pub was_down : Bool

pub record InputEvent : Type 0 where
  pub kind : ℕ
  pub code : ℕ
  pub value : ℤ

unfoldable pub feed_abs : TouchState → ℕ → ℤ → TouchState
feed_abs t code value =
    if code == abs_mt_position_x || code == abs_x
    then record t { x = value }
    else if code == abs_mt_position_y || code == abs_y
    then record t { y = value }
    else if code == abs_mt_tracking_id
    then record t { down = le (pos 0) value }
    else t

unfoldable pub is_zero : ℤ → Bool
is_zero (pos n) = n == 0
is_zero (negsuc n) = false

unfoldable pub feed_key : TouchState → ℕ → ℤ → TouchState
feed_key t code value = if code == btn_touch then record t { down = not (is_zero value) } else t

-- touchState.feed: the new state, and whether a tap is complete
unfoldable pub feed : TouchState → InputEvent → TouchState × Bool
feed t e =
    if e.kind == ev_abs
    then (feed_abs t e.code e.value, false)
    else if e.kind == ev_key
    then (feed_key t e.code e.value, false)
    else if e.kind == ev_syn
    then (record t { was_down = t.down }, t.was_down && not t.down)
    else (t, false)

-- the int32 of a word
unfoldable pub int32_of : ℕ → ℤ
int32_of w = if ltb w 2147483648 then pos w else negsuc (4294967295 - w)

-- decodeEvent, behind the timestamp
unfoldable pub decode_body : Bytes → Option InputEvent
decode_body (k0 ∷ k1 ∷ c0 ∷ c1 ∷ v0 ∷ v1 ∷ v2 ∷ v3 ∷ rest) =
    some
      (record { kind = k0 + 256 * k1; code = c0 + 256 * c1; value = int32_of (word32 v0 v1 v2 v3) })
decode_body _ = none

unfoldable pub decode_event : ℕ → Bytes → Option InputEvent
decode_event timeval_size b = decode_body (drop timeval_size b)

unfoldable pub has_bit : Bytes → ℕ → Bool
has_bit bits bit = get_or bits (bit / 8) 0 / 2 ^ (bit % 8) % 2 == 1

-- openTouchDev: the axes by the bits
unfoldable pub choose_axes : Bytes → Option (ℕ × ℕ)
choose_axes bits =
    if has_bit bits abs_mt_position_x && has_bit bits abs_mt_position_y
    then some (abs_mt_position_x, abs_mt_position_y)
    else if has_bit bits abs_x && has_bit bits abs_y
    then some (abs_x, abs_y)
    else none

-- absRange: the range of an axis, behind the first word of struct input_absinfo
unfoldable pub widen : ℤ → ℤ → ℤ × ℤ
widen lo hi = if le hi lo then (lo, add lo (pos 1)) else (lo, hi)

unfoldable pub abs_range : Bytes → Option (ℤ × ℤ)
abs_range (v0 ∷ v1 ∷ v2 ∷ v3 ∷ a0 ∷ a1 ∷ a2 ∷ a3 ∷ b0 ∷ b1 ∷ b2 ∷ b3 ∷ rest) =
    some (widen (int32_of (word32 a0 a1 a2 a3)) (int32_of (word32 b0 b1 b2 b3)))
abs_range _ = none

-- The position on the panel; `none` is a division by zero.
unfoldable pub divide : ℤ → ℤ → Option ℤ
divide a (pos zero) = none
divide a (pos (suc d)) = some (over a (suc d))
divide (pos n) (negsuc d) = some (over (sub (pos 0) (pos n)) (suc d))
divide (negsuc n) (negsuc d) = some (over (pos (suc n)) (suc d))

unfoldable pub scale : ℤ → ℤ × ℤ → ℕ → Option ℤ
scale raw (lo, hi) size = divide (times (sub raw lo) size) (sub hi lo)

-- the loop of tap, over the events that the file holds: the state behind the first complete tap
unfoldable pub next_tap : TouchState → List InputEvent → Option (TouchState × List InputEvent)
next_tap t [] = none
next_tap t (e ∷ es) =
    let (t', complete) = feed t e in
    let later = next_tap t' es in if complete then some (t', es) else later
