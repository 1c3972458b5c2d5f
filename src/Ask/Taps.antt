-- ===== src/Ask/Taps.antt =====
-- What a tap of touch.go stands for.
use dc_1_pmos.Base.{
  ◌≡◌, ap, sym, subst, ◌∙◌, Bool, true, false, not, ◌&&◌, ◌||◌, List, [], ◌∷◌, ◌++◌, Option, some,
  inl, inr, arith, ◌==◌, Bool-cases,
}
use dc_1_pmos.Std.Strconv.{pos}
use dc_1_pmos.Std.Ints.{le}
use dc_1_pmos.Ask.Touch.{
  ev_key, ev_abs, abs_mt_tracking_id, btn_touch, TouchState, InputEvent, feed_abs, feed_key,
  is_zero, feed, next_tap,
}

-- an event that says that a finger is on the panel: a tracking number, or the key pressed
abbrev pub touches : InputEvent → Bool
touches e =
    (e.kind == ev_abs && (e.code == abs_mt_tracking_id && le (pos 0) e.value))
    || (e.kind == ev_key && (e.code == btn_touch && not (is_zero e.value)))

-- the events of a tap: the first part is what it took, with an event of a finger in it
pub record IsTouched (es rest : List InputEvent) : Type 0 where
  pub before : List InputEvent
  pub finger : InputEvent
  pub after : List InputEvent
  pub taken : es ≡ before ++ (finger ∷ (after ++ rest))
  pub on_panel : touches finger ≡ true

-- no finger is on the panel, and none was at the end of the last report
pub record IsAtRest (t : TouchState) : Type 0 where
  pub now : t.down ≡ false
  pub last : t.was_down ≡ false

feed-down :
    (t : TouchState) (e : InputEvent)
    → t.down ≡ false
    → touches e ≡ false
    → (feed t e).0.down ≡ false
unfolding feed feed_abs feed_key
feed-down t e up still = ground arith

feed-was_down :
    (t : TouchState) (e : InputEvent)
    → t.down ≡ false
    → t.was_down ≡ false
    → (feed t e).0.was_down ≡ false
unfolding feed feed_abs feed_key
feed-was_down t e up last = ground arith

feed_complete :
    (t : TouchState) (e : InputEvent)
    → (feed t e).1 ≡ true
    → (t.was_down ≡ true) × ((feed t e).0.down ≡ false) × ((feed t e).0.was_down ≡ false)
unfolding feed
feed_complete t e h = ground arith

-- what follows an event that completes no tap
next_tap-behind :
    (t : TouchState) (e : InputEvent) (es : List InputEvent)
    → (feed t e).1 ≡ false
    → next_tap t (e ∷ es) ≡ next_tap (feed t e).0 es
unfolding next_tap
next_tap-behind t e es going = rw going

next_tap_complete :
    (t : TouchState) (e : InputEvent) (es : List InputEvent)
    → (feed t e).1 ≡ true
    → next_tap t (e ∷ es) ≡ some ((feed t e).0, es)
unfolding next_tap
next_tap_complete t e es done = rw done

next_tap-rest :
    (t : TouchState) (es : List InputEvent) {t' : TouchState} {rest : List InputEvent}
    → next_tap t es ≡ some (t', rest)
    → (taken : List InputEvent) × (es ≡ taken ++ rest)
unfolding next_tap
next_tap-rest t [] h = cc
next_tap-rest t (e ∷ es) {t'} {rest} h = elim (Bool-cases (feed t e).1) [
  | inl done ↦
      let same : ◌≡◌ {A = Option (TouchState × List InputEvent)} (some ((feed t e).0, es))
          (some (t', rest)) =
        sym (next_tap_complete t e es done) ∙ h in
      let behind : es ≡ rest = cc in (e ∷ [], ap (λ (l : List InputEvent). e ∷ l) behind)
  | inr going ↦
      let (taken, split) = next_tap-rest (feed t e).0 es (sym (next_tap-behind t e es going) ∙ h) in
      (e ∷ taken, ap (λ (l : List InputEvent). e ∷ l) split)
]

next_tap-IsAtRest :
    (t : TouchState) (es : List InputEvent) {t' : TouchState} {rest : List InputEvent}
    → next_tap t es ≡ some (t', rest)
    → IsAtRest t'
unfolding next_tap
next_tap-IsAtRest t [] h = cc
next_tap-IsAtRest t (e ∷ es) {t'} {rest} h = elim (Bool-cases (feed t e).1) [
  | inl done ↦
      let same : ◌≡◌ {A = Option (TouchState × List InputEvent)} (some ((feed t e).0, es))
          (some (t', rest)) =
        sym (next_tap_complete t e es done) ∙ h in
      let state : (feed t e).0 ≡ t' = cc in
      let (was, up, last) = feed_complete t e done in
      subst IsAtRest state (record { now = up; last = last })
  | inr going ↦ next_tap-IsAtRest (feed t e).0 es (sym (next_tap-behind t e es going) ∙ h)
]

at_rest-still_going : (t : TouchState) (e : InputEvent) → IsAtRest t → (feed t e).1 ≡ false
at_rest-still_going t e quiet = elim (Bool-cases (feed t e).1) [
  | inl done ↦
      let (was, up, last) = feed_complete t e done in absurd (ground (arith, was, quiet.last))
  | inr going ↦ going
]

IsTouched-cons :
    (e : InputEvent) {es rest : List InputEvent} → IsTouched es rest → IsTouched (e ∷ es) rest
IsTouched-cons e r = record {
  before = e ∷ r.before;
  finger = r.finger;
  after = r.after;
  taken = ap (λ (l : List InputEvent). e ∷ l) r.taken;
  on_panel = r.on_panel;
}

at_rest-IsTouched :
    (t : TouchState) (es : List InputEvent) {t' : TouchState} {rest : List InputEvent}
    → next_tap t es ≡ some (t', rest)
    → IsAtRest t
    → IsTouched es rest
unfolding next_tap
at_rest-IsTouched t [] h quiet = cc
at_rest-IsTouched t (e ∷ es) h quiet =
    let later = sym (next_tap-behind t e es (at_rest-still_going t e quiet)) ∙ h in
    elim (Bool-cases (touches e)) [
      | inl finger ↦
          let (taken, split) = next_tap-rest (feed t e).0 es later in
          record {
            before = [];
            finger = e;
            after = taken;
            taken = ap (λ (l : List InputEvent). e ∷ l) split;
            on_panel = finger;
          }
      | inr still ↦ IsTouched-cons e (
          at_rest-IsTouched (feed t e).0 es later (record {
            now = feed-down t e quiet.now still;
            last = feed-was_down t e quiet.now quiet.last;
          }))
    ]

-- Where no finger is on the panel and none was at the end of the last report, and the loop of tap finds
-- a tap: among the events that it took, one says that a finger is on the panel, and behind them, again,
-- no finger is on the panel and none was at the end of the last report.
pub next_tap-IsTouched :
    (t : TouchState) (es : List InputEvent) {t' : TouchState} {rest : List InputEvent}
    → next_tap t es ≡ some (t', rest)
    → IsAtRest t
    → IsTouched es rest × IsAtRest t'
next_tap-IsTouched t es h quiet = (at_rest-IsTouched t es h quiet, next_tap-IsAtRest t es h)
