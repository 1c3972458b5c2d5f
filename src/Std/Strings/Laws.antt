-- ===== src/Std/Strings/Laws.antt =====
-- The text functions on lines that are put together from known parts.
use dc_1_pmos.Base.{
  ℕ, ◌<◌, ◌≡◌, ◌≢◌, refl, ap, sym, ◌∙◌, Bool, true, false, [], ◌∷◌, ◌++◌, Option, none, some, ◌==◌,
  ==_iff, Bytes, All, length, inl, inr, Bool-cases, Option-cases, arith,
}
use dc_1_pmos.Std.Strings.{read_line, trim_right, is_crlf, cut}

-- Bytes that end no line.
abbrev pub IsPlain : ℕ → Type 0
IsPlain c = is_crlf c ≡ false

pub read_line-append :
    (xs rest : Bytes)
    → All IsPlain xs
    → read_line (xs ++ (b'\n' ∷ rest)) ≡ some (xs ++ b'\n' ∷ [], rest)
unfolding read_line
read_line-append [] rest h = refl
read_line-append (x ∷ xs) rest h = ground (arith, read_line-append xs rest h.1)

-- A line: a newline at its end, and none before it.
pub IsLine : Bytes → Type 0
IsLine line = (front : Bytes) × (line ≡ front ++ b'\n' ∷ []) × All (λ (c : ℕ). c ≢ b'\n') front

pub read_line-IsLine : (s line rest : Bytes) → read_line s ≡ some (line, rest) → IsLine line
unfolding read_line IsLine
read_line-IsLine [] line rest h = cc
read_line-IsLine (c ∷ cs) line rest h = elim (Bool-cases (c == b'\n')) [
  | inl e ↦
      let h' : ◌≡◌ {A = Option (Bytes × Bytes)} (some (c ∷ [], cs)) (some (line, rest)) =
        rw e at h in
      let l : c ∷ [] ≡ line = cc in
      let e' : c ≡ b'\n' = (==_iff c b'\n').0 e in ([], sym l ∙ ap (λ (x : ℕ). x ∷ []) e', tt)
  | inr e ↦ elim (Option-cases (read_line cs)) [
    | inl n ↦
        let h' : ◌≡◌ {A = Option (Bytes × Bytes)} none (some (line, rest)) = rw n at (rw e at h) in
        cc
    | inr ((l, r), n) ↦
        let (front, e', plain) = read_line-IsLine cs l r n in
        let differs : c ≢ b'\n' = λ q. absurd (ground (arith, e, q)) in
        let h' : ◌≡◌ {A = Option (Bytes × Bytes)} (some (c ∷ l, r)) (some (line, rest)) =
          rw n at (rw e at h) in
        let el : c ∷ l ≡ line = cc in (c ∷ front, sym el ∙ ap (◌∷◌ c) e', (differs, plain))
  ]
]

-- A line that was read is a part of the text, and not empty; what follows it is the rest.
pub read_line_splits :
    (s line rest : Bytes)
    → read_line s ≡ some (line, rest)
    → (s ≡ line ++ rest) × (length rest < length s)
unfolding read_line
read_line_splits [] line rest h = cc
read_line_splits (c ∷ cs) line rest h = elim (Bool-cases (c == b'\n')) [
  | inl e ↦
      let h' : ◌≡◌ {A = Option (Bytes × Bytes)} (some (c ∷ [], cs)) (some (line, rest)) =
        rw e at h in
      let l : c ∷ [] ≡ line = cc in
      let r : cs ≡ rest = cc in (rw (← l, ← r) refl, rw (← r) (omega arith))
  | inr e ↦ elim (Option-cases (read_line cs)) [
    | inl n ↦
        let h' : ◌≡◌ {A = Option (Bytes × Bytes)} none (some (line, rest)) = rw n at (rw e at h) in
        cc
    | inr ((l, r), n) ↦
        let ih = read_line_splits cs l r n in
        let h' : ◌≡◌ {A = Option (Bytes × Bytes)} (some (c ∷ l, r)) (some (line, rest)) =
          rw n at (rw e at h) in
        let el : c ∷ l ≡ line = cc in
        let er : r ≡ rest = cc in
        (rw (← el, ← er) (ap (◌∷◌ c) ih.0), rw (← er) (omega (arith, ih.1)))
  ]
]

pub trim_right_plain :
    (p : ℕ → Bool) (xs : Bytes) → All (λ c. p c ≡ false) xs → trim_right p xs ≡ xs
unfolding trim_right
trim_right_plain p [] h = refl
trim_right_plain p (x ∷ []) h = rw h.0
trim_right_plain p (x ∷ y ∷ ys) h = rw (trim_right_plain p (y ∷ ys) h.1) refl

pub trim_right-concat :
    (p : ℕ → Bool) (xs : Bytes) (c : ℕ) → p c ≡ true → trim_right p (xs ++ c ∷ []) ≡ trim_right p xs
unfolding trim_right
trim_right-concat p [] c h = rw h
trim_right-concat p (x ∷ xs) c h = rw (trim_right-concat p xs c h)

pub trim_line : (xs : Bytes) → All IsPlain xs → trim_right is_crlf (xs ++ b'\n' ∷ []) ≡ xs
trim_line xs h = trim_right-concat is_crlf xs b'\n' refl ∙ trim_right_plain is_crlf xs h

pub cut-append :
    (sep : ℕ) (xs ys : Bytes) → All (λ c. c ≢ sep) xs → cut sep (xs ++ (sep ∷ ys)) ≡ some (xs, ys)
unfolding cut
cut-append sep [] ys h = ground arith
cut-append sep (x ∷ xs) ys h = ground (arith, cut-append sep xs ys h.1)
