-- ===== src/Ask/Entries.antt =====
-- What an entry on the keyboard of ask.go can be.
use dc_1_pmos.Base.{
  ℕ, zero, suc, ◌≤◌, ◌<◌, ◌≡◌, refl, sym, subst, Bool, true, false, ◌&&◌, List, [], ◌∷◌, Option,
  none, some, Bytes, length, length-append, length-take, take, ltb, ◌==◌, All, All-append, if_both,
  if_either, and_both, arith,
}
use dc_1_pmos.Std.Strconv.{ℤ, pos}
use dc_1_pmos.Std.Ints.{lt, over}
use dc_1_pmos.Ask.Layout.{
  max_text, Editor, drop_last, is_printable, type_key, press, key_none, key_shift, key_sym, key_bs,
  key_ok,
}
use dc_1_pmos.Ask.Keyboard.{KbGeom, kb_geometry, kb_hit, key_at}
use dc_1_pmos.Ask.Dialogs.{
  Tap, Ended, answered, crashed, initial_editor, on_cancel, after_key, after_hit, edit, enter_text,
}

abbrev pub IsPrintable : ℕ → Type 0
IsPrintable c = is_printable c ≡ true

-- at most 63 bytes, all printable ASCII
unfoldable pub IsEntry : Bytes → Type 0
IsEntry b = (length b ≤ max_text) × All IsPrintable b

unfoldable pub IsAnswer : Ended Bytes → Type 0
IsAnswer (answered b) = IsEntry b
IsAnswer crashed = ⊥
IsAnswer _ = Unit

length-drop_last : (b : Bytes) → length (drop_last b) ≤ length b
unfolding drop_last
length-drop_last [] = omega arith
length-drop_last (c ∷ []) = omega arith
length-drop_last (c ∷ d ∷ cs) = omega (arith, length-drop_last (d ∷ cs))

drop_last-All : (b : Bytes) → All IsPrintable b → All IsPrintable (drop_last b)
unfolding drop_last
drop_last-All [] h = tt
drop_last-All (c ∷ []) h = tt
drop_last-All (c ∷ d ∷ cs) h = (h.0, drop_last-All (d ∷ cs) h.1)

drop_last-IsEntry : (b : Bytes) → IsEntry b → IsEntry (drop_last b)
unfolding IsEntry
drop_last-IsEntry b h = (omega (arith, h.0, length-drop_last b), drop_last-All b h.1)

type_key-IsEntry : (e : Editor) (k : ℕ) → IsEntry e.buf → IsEntry (type_key e k).buf
unfolding IsEntry type_key
type_key-IsEntry e k h =
    if_either (λ (x : Editor). IsEntry x.buf) (is_printable k && ltb (length e.buf) max_text)
      (λ both.
        let (printable, room) = and_both {b = is_printable k} both in
        (
          ground (arith, length-append e.buf (k ∷ [])),
          All-append IsPrintable e.buf (k ∷ []) h.1 (printable, tt),
        ))
      (λ none_of. h)

press-IsEntry : (e : Editor) (k : ℕ) → IsEntry e.buf → IsEntry (press e k).0.buf
unfolding press
press-IsEntry e k h =
    let P : Editor × Bool → Type 0 = λ x. IsEntry x.0.buf in
    if_both P (k == key_none) h (
      if_both P (k == key_shift) h (
        if_both P (k == key_sym) h (
          if_both P (k == key_bs) (drop_last-IsEntry e.buf h)
            (if_both P (k == key_ok) h (type_key-IsEntry e k h)))))

take-All : (n : ℕ) (b : Bytes) → All IsPrintable b → All IsPrintable (take n b)
take-All zero b h = tt
take-All (suc n) [] h = tt
take-All (suc n) (c ∷ cs) h = (h.0, take-All n cs h.1)

initial_editor-IsEntry :
    (initial : Bytes) (secret : Bool)
    → All IsPrintable initial
    → IsEntry (initial_editor initial secret).buf
unfolding initial_editor IsEntry
initial_editor-IsEntry initial true h = (omega arith, tt)
initial_editor-IsEntry initial false h =
    if_either IsEntry (ltb max_text (length initial))
      (λ long. (omega (arith, length-take max_text initial), take-All max_text initial h))
      (λ short. (ground arith, h))

-- a tap that is not left of the panel
abbrev pub IsOnPanel : Tap → Type 0
IsOnPanel t = (n : ℕ) × (t.0 ≡ pos n)

-- the tap hits a key, or none, without a panic
abbrev Known : Option ℕ → Type 0
Known o = (k : ℕ) × (o ≡ some k)

kb_hit-Known :
    (g : KbGeom) (layer shifted n : ℕ) (y : ℤ)
    → 0 < g.cell_w
    → 0 < g.cell_h
    → Known (kb_hit g layer shifted (pos n) y)
unfolding kb_hit key_at over
kb_hit-Known g layer shifted n y wide high =
    if_both Known (lt y (pos g.top)) (key_none, refl)
      (if_either Known (g.cell_h == 0) (λ bad. absurd (ground arith))
        (λ good.
          if_either Known (g.cell_w == 0) (λ bad. absurd (ground arith))
            (λ fine. if_both Known (ltb _ 4) (_, refl) (_, refl))))

after_key-IsAnswer :
    (r : Editor × Bool) (rest : Editor → Ended Bytes)
    → IsEntry r.0.buf
    → ((e : Editor) → IsEntry e.buf → IsAnswer (rest e))
    → IsAnswer (after_key r rest)
unfolding after_key IsAnswer
after_key-IsAnswer (e, true) rest h go = h
after_key-IsAnswer (e, false) rest h go = go e h

after_hit-IsAnswer :
    (e : Editor) (o : Option ℕ) (rest : Editor → Ended Bytes)
    → Known o
    → IsEntry e.buf
    → ((e' : Editor) → IsEntry e'.buf → IsAnswer (rest e'))
    → IsAnswer (after_hit e o rest)
unfolding after_hit
after_hit-IsAnswer e none rest known h go = absurd cc
after_hit-IsAnswer e (some k) rest known h go =
    after_key-IsAnswer (press e k) rest (press-IsEntry e k h) go

edit-IsAnswer :
    (w : ℕ) (g : KbGeom) (taps : List Tap) (e : Editor)
    → 0 < g.cell_w
    → 0 < g.cell_h
    → All IsOnPanel taps
    → IsEntry e.buf
    → IsAnswer (edit w g taps e)
unfolding edit IsAnswer
edit-IsAnswer w g [] e wide high on h = tt
edit-IsAnswer w g ((x, y) ∷ taps) e wide high on h =
    let (n, at_x) = on.0 in
    if_both IsAnswer (on_cancel w x y) tt (
      after_hit-IsAnswer e _ (edit w g taps)
        (subst (λ (x' : ℤ). Known (kb_hit g e.layer e.shifted x' y)) (sym at_x)
          (kb_hit-Known g e.layer e.shifted n y wide high))
        h (λ e' h'. edit-IsAnswer w g taps e' wide high on.1 h'))

-- On a panel at least 10 pixels wide and 11 high, with an initial text of printable ASCII, and whatever is
-- tapped on the panel or right, above or below of it: the keyboard does not panic, and what is entered is at most
-- 63 bytes of printable ASCII.
pub enter_text-IsAnswer :
    (w h : ℕ) (initial : Bytes) (secret : Bool) (taps : List Tap)
    → 10 ≤ w
    → 11 ≤ h
    → All IsPrintable initial
    → All IsOnPanel taps
    → IsAnswer (enter_text w h initial secret taps)
unfolding enter_text kb_geometry
enter_text-IsAnswer w h initial secret taps wide high plain on =
    edit-IsAnswer w (kb_geometry w h) taps (initial_editor initial secret) (omega arith)
      (omega arith) on (initial_editor-IsEntry initial secret plain)
