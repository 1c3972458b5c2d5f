-- ===== src/Ask/Choices.antt =====
-- A menu of ask.go answers with the option that was tapped.
use dc_1_pmos.Base.{
  ℕ, zero, suc, ◌+◌, ◌-◌, ◌*◌, ◌%◌, ◌≤◌, ◌<◌, ◌≡◌, ◌≢◌, ◌⊎◌, refl, sym, ap, ◌∙◌, subst, true, ◌&&◌,
  List, [], ◌∷◌, ◌++◌, some, ltb, Bool-cases, Option-cases, if_both, and_both, inl, inr, arith,
}
use dc_1_pmos.Std.Strconv.{ℤ, pos, negsuc}
use dc_1_pmos.Std.Ints.{lt, le, add}
use dc_1_pmos.Ask.Layout.{
  in_rect, menu_page, new_menu_geom, MenuGeom, count, button_y, on_button, find_button, Hit, option,
  more, missed, hit_more, hit,
}
use dc_1_pmos.Ask.Dialogs.{Tap, Ended, answered, menu_from, menu}

-- The option `i` is one of `n`, and one of the taps fell on its button.
pub record IsTapped (g : MenuGeom) (n : ℕ) (taps : List Tap) (i : ℕ) : Type 0 where
  pub in_range : i < n
  pub before : List Tap
  pub tap : Tap
  pub after : List Tap
  pub all_taps : taps ≡ before ++ (tap ∷ after)
  pub on_it : on_button g (button_y (i % menu_page)) tap.0 tap.1 ≡ true

find_button-some :
    (g : MenuGeom) (i left : ℕ) (x y : ℤ) {k : ℕ}
    → find_button g i left x y ≡ some k
    → (k < i + left) × (on_button g (button_y k) x y ≡ true)
unfolding find_button
find_button-some g i zero x y h = absurd cc
find_button-some g i (suc left) x y {k} h = elim (Bool-cases (on_button g (button_y i) x y)) [
  | inl here ↦
      let it : some i ≡ some k = (rw here at h) in
      let same : i ≡ k = cc in
      (omega (arith, same), subst (λ (j : ℕ). on_button g (button_y j) x y ≡ true) same here)
  | inr other ↦
      let (short, on) = find_button-some g (suc i) left x y (rw other at h) in
      (omega (arith, short), on)
]

count-small : (page n k : ℕ) → k < count page n → (k < menu_page) × (page * menu_page + k < n)
unfolding count
count-small page n k h = elim (Bool-cases (ltb menu_page (n - page * menu_page))) [
  | inl full ↦ (ground arith, ground arith)
  | inr rest ↦ (ground arith, ground arith)
]

hit_more-ne-option : (g : MenuGeom) (x y : ℤ) (i : ℕ) → hit_more g x y ≢ option i
unfolding hit_more
hit_more-ne-option g x y i =
    if_both (λ (r : Hit). r ≢ option i) (ltb 1 g.pages && on_button g g.more_y x y) (λ e. cc)
      (λ e. cc)

Hit-cases : (r : Hit) → ((i : ℕ) × (r ≡ option i)) ⊎ (r ≡ more) ⊎ (r ≡ missed)
Hit-cases (option i) = inl (i, refl)
Hit-cases more = inr (inl refl)
Hit-cases missed = inr (inr refl)

hit-option :
    (g : MenuGeom) (page n : ℕ) (x y : ℤ) {i : ℕ}
    → hit g page n x y ≡ option i
    → (i < n) × (on_button g (button_y (i % menu_page)) x y ≡ true)
unfolding hit hit_more
hit-option g page n x y {i} h = elim (Option-cases (find_button g 0 (count page n) x y)) [
  | inl none_hit ↦ absurd (hit_more-ne-option g x y i (rw (none_hit, hit) at h))
  | inr (k, found) ↦
      let (short, on) = find_button-some g 0 (count page n) x y found in
      let (small, inside) = count-small page n k (omega (arith, short)) in
      let it : option (page * menu_page + k) ≡ option i = (rw (found, hit) at h) in
      let same : page * menu_page + k ≡ i = cc in
      let rest : k ≡ i % menu_page = omega (arith, same, small) in
      (omega (arith, same, inside), subst (λ (j : ℕ). on_button g (button_y j) x y ≡ true) rest on)
]

later :
    {g : MenuGeom} {n i : ℕ} (t : Tap) {taps : List Tap}
    → IsTapped g n taps i
    → IsTapped g n (t ∷ taps) i
later t h = record {
  in_range = h.in_range;
  before = t ∷ h.before;
  tap = h.tap;
  after = h.after;
  all_taps = ap (λ (l : List Tap). t ∷ l) h.all_taps;
  on_it = h.on_it;
}

menu_from-IsTapped :
    (g : MenuGeom) (n page : ℕ) (taps : List Tap) {i : ℕ}
    → menu_from g n page taps ≡ answered i
    → IsTapped g n taps i
unfolding menu_from
menu_from-IsTapped g n page [] h = absurd cc
menu_from-IsTapped g n page ((x, y) ∷ taps) {i} h = elim (Hit-cases (hit g page n x y)) [
  | inl (k, found) ↦
      let it : ◌≡◌ {A = Ended ℕ} (answered k) (answered i) = (rw (found, menu_from) at h) in
      let same : k ≡ i = cc in
      let (inside, on) = hit-option g page n x y found in
      subst (IsTapped g n ((x, y) ∷ taps)) same (record {
        in_range = inside;
        before = [];
        tap = (x, y);
        after = taps;
        all_taps = refl;
        on_it = on;
      })
  | inr (inl again) ↦
      later (x, y) (menu_from-IsTapped g n ((page + 1) % g.pages) taps (rw (again, menu_from) at h))
  | inr (inr miss) ↦ later (x, y) (menu_from-IsTapped g n page taps (rw (miss, menu_from) at h))
]

-- Whatever is tapped and however many options there are, an answer of a menu is the number of an option, and
-- one of the taps fell on the place of that option's button on its page.
pub menu-IsTapped :
    (fbw n : ℕ) (taps : List Tap) {i : ℕ}
    → menu fbw n taps ≡ answered i
    → IsTapped (new_menu_geom fbw n) n taps i
unfolding menu
menu-IsTapped fbw n taps h = menu_from-IsTapped (new_menu_geom fbw n) n 0 taps h

in_rect-rows :
    (x y rx ry rw' rh : ℤ)
    → in_rect x y rx ry rw' rh ≡ true
    → (le ry y ≡ true) × (lt y (add ry rh) ≡ true)
unfolding in_rect
in_rect-rows x y rx ry rw' rh h =
    let right : (lt x (add rx rw') && (le ry y && lt y (add ry rh))) ≡ true =
      (and_both {b = le rx x} h).1 in
    let rows : (le ry y && lt y (add ry rh)) ≡ true = (and_both {b = lt x (add rx rw')} right).1 in
    and_both {b = le ry y} rows

-- The height of a tap on a button is within the button.
on_button-band :
    (g : MenuGeom) (top : ℕ) (x y : ℤ)
    → on_button g top x y ≡ true
    → (n : ℕ) × (y ≡ pos n) × (top ≤ n) × (n < top + 130)
unfolding on_button le lt add
on_button-band g top x (pos n) h =
    let (low, high) = in_rect-rows x (pos n) (pos 40) (pos top) g.width (pos 130) h in
    (n, refl, ground arith, ground arith)
on_button-band g top x (negsuc n) h =
    let (low, high) = in_rect-rows x (negsuc n) (pos 40) (pos top) g.width (pos 130) h in
    absurd (ground arith)

same_button :
    (g : MenuGeom) (i k : ℕ) (x y : ℤ)
    → on_button g (button_y i) x y ≡ true
    → on_button g (button_y k) x y ≡ true
    → i ≡ k
unfolding button_y
same_button g i k x y h h' =
    let (n, at_n, low, high) = on_button-band g (button_y i) x y h in
    let (n', at_n', low', high') = on_button-band g (button_y k) x y h' in
    let both : ◌≡◌ {A = ℤ} (pos n) (pos n') = sym at_n ∙ at_n' in
    let one_height : n ≡ n' = cc in omega arith

find_button-finds :
    (g : MenuGeom) (i left k : ℕ) (x y : ℤ)
    → i ≤ k
    → k < i + left
    → on_button g (button_y k) x y ≡ true
    → find_button g i left x y ≡ some k
unfolding find_button
find_button-finds g i zero k x y low high on = absurd (omega arith)
find_button-finds g i (suc left) k x y low high on =
    elim (Bool-cases (on_button g (button_y i) x y)) [
      | inl here ↦ rw (here, find_button) (ap (λ (j : ℕ). some j) (same_button g i k x y here on))
      | inr other ↦
          let apart : i ≢ k = λ same.
            let on_i : on_button g (button_y i) x y ≡ true =
              subst (λ (j : ℕ). on_button g (button_y j) x y ≡ true) (sym same) on in
            cc in
          rw (other, find_button)
            (find_button-finds g (suc i) left k x y (omega (arith, apart)) (omega arith) on)
    ]

-- A tap on a button of the page that is shown is a hit of that button's option and of no other.
pub hit_button :
    (g : MenuGeom) (page n k : ℕ) (x y : ℤ)
    → k < count page n
    → on_button g (button_y k) x y ≡ true
    → hit g page n x y ≡ option (page * menu_page + k)
unfolding hit
hit_button g page n k x y short on =
    rw (find_button-finds g 0 (count page n) k x y (omega arith) (omega arith) on, hit) refl
