-- ===== src/InstallerInit/Screen.antt =====
-- What the status screen of paint.go shows stays within its bounds, whatever the status file holds.
use native.Mathlib.Nat.{mul-le-mul_left}
use dc_1_pmos.Base.{
  ℕ, zero, suc, ◌+◌, ◌-◌, ◌*◌, ◌/◌, ◌≤◌, ◌≡◌, refl, subst, true, List, [], ◌∷◌, Option, none, some,
  Bytes, length, All, Option-cases, ltb, inl, inr, arith, if_either,
}
use dc_1_pmos.Std.Strings.{trim_space, split_lines, cut_prefix}
use dc_1_pmos.Std.Strconv.{ℤ, pos, negsuc, parse_int}
use dc_1_pmos.InstallerInit.Status.{
  max_status_lines, trim_line, progress_value, is_shown, shown_lines, or_default, status_lines,
  percent_of, line_percent, last_percent, progress_pct, filled, bar_width,
}

abbrev pub IsShown : Bytes → Type 0
IsShown l = is_shown l ≡ true

-- at most 100, if there
unfoldable pub IsPercent : Option ℕ → Type 0
IsPercent none = Unit
IsPercent (some n) = n ≤ 100

shown_lines-fit :
    (room : ℕ) (ls : List Bytes)
    → (length (shown_lines room ls) ≤ room) × All IsShown (shown_lines room ls)
unfolding shown_lines
shown_lines-fit zero ls = (omega arith, tt)
shown_lines-fit (suc room) [] = (omega arith, tt)
shown_lines-fit (suc room) (l ∷ ls) =
    if_either (λ (xs : List Bytes). (length xs ≤ suc room) × All IsShown xs)
      (is_shown (trim_line l))
      (λ shown. let (short, all) = shown_lines-fit room ls in (omega (arith, short), (shown, all)))
      (λ hidden. shown_lines-fit (suc room) ls)

or_default-fit :
    (ls : List Bytes)
    → length ls ≤ max_status_lines
    → All IsShown ls
    → (1 ≤ length (or_default ls))
      × (length (or_default ls) ≤ max_status_lines)
      × All IsShown (or_default ls)
unfolding or_default is_shown progress_value cut_prefix
or_default-fit [] short all = (omega arith, omega arith, (refl, tt))
or_default-fit (l ∷ ls) short all = (omega arith, short, all)

percent_of-small : (z : Option ℤ) {n : ℕ} → percent_of z ≡ some n → n ≤ 100
unfolding percent_of
percent_of-small none h = absurd cc
percent_of-small (some (negsuc k)) h = absurd cc
percent_of-small (some (pos k)) h = ground arith

line_percent-small : (v : Option Bytes) {n : ℕ} → line_percent v ≡ some n → n ≤ 100
unfolding line_percent
line_percent-small none h = absurd cc
line_percent-small (some v) h = percent_of-small (parse_int (trim_space v)) h

last_percent-small :
    (ls : List Bytes) (found : Option ℕ)
    → ((n : ℕ) → found ≡ some n → n ≤ 100)
    → (n : ℕ) → last_percent found ls ≡ some n
    → n ≤ 100
unfolding last_percent
last_percent-small [] found small n h = small n h
last_percent-small (l ∷ ls) found small n h =
    elim (Option-cases (line_percent (progress_value (trim_line l)))) [
      | inl absent ↦ last_percent-small ls found small n (rw (absent, last_percent) at h)
      | inr (p, here) ↦
          last_percent-small ls (some p)
            (λ k same.
              let it : p ≡ k = cc in subst (λ (x : ℕ). x ≤ 100) it (line_percent-small _ here))
            n (rw (here, last_percent) at h)
    ]

scaled : (inner p : ℕ) → p ≤ 100 → inner * p / 100 ≤ inner
scaled inner p h = let most = mul-le-mul_left inner h in omega (arith, most)

filled-fits : (inner : ℕ) (pct : Option ℕ) → filled inner pct ≤ inner
unfolding filled
filled-fits inner none = omega arith
filled-fits inner (some p) =
    if_either (λ (k : ℕ). inner * k / 100 ≤ inner) (ltb 100 p)
      (λ large. scaled inner 100 (omega arith)) (λ small. scaled inner p (ground arith))

-- The bar is filled within its track, and the track with its margins fits the panel.
unfoldable pub FitsPanel : ℕ → Option (ℕ × ℕ) → Type 0
FitsPanel w none = Unit
FitsPanel w (some (inner, fill)) = (fill ≤ inner) × (inner + 84 ≤ w)

bar_width-FitsPanel : (w : ℕ) (pct : Option ℕ) → FitsPanel w (bar_width w pct)
unfolding bar_width FitsPanel
bar_width-FitsPanel w pct =
    if_either (FitsPanel w) (ltb (w - 80) 6) (λ narrow. tt)
      (λ wide. (filled-fits (w - 80 - 4) pct, ground arith))

percent : (p : Option ℕ) → ((n : ℕ) → p ≡ some n → n ≤ 100) → IsPercent p
unfolding IsPercent
percent none h = tt
percent (some n) h = h n refl

-- Whatever the status file holds, the screen shows between one and eight lines, none of them empty or a line of
-- progress; the percentage that it takes from the file is at most 100; and on a panel of any width the
-- bar is filled within its track and the track with its margins fits the panel, or no bar is drawn.
pub screen_fits :
    (status : Bytes) (w : ℕ)
    → (1 ≤ length (status_lines status))
      × (length (status_lines status) ≤ max_status_lines)
      × All IsShown (status_lines status)
      × IsPercent (progress_pct status)
      × FitsPanel w (bar_width w (progress_pct status))
unfolding status_lines progress_pct
screen_fits status w =
    let (short, all) = shown_lines-fit max_status_lines (split_lines status) in
    let (some_line, few, shown) =
      or_default-fit (shown_lines max_status_lines (split_lines status)) short all in
    (
      some_line,
      few,
      shown,
      percent (last_percent none (split_lines status))
          (last_percent-small (split_lines status) none (λ n bad. absurd cc)),
      bar_width-FitsPanel w _,
    )
