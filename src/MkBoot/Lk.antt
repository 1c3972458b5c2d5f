-- ===== src/MkBoot/Lk.antt =====
-- lkWrap of main.go: the 512-byte header of an lk partition in front of a payload.
use dc_1_pmos.Base.{
  ℕ, zero, suc, ◌+◌, ◌-◌, ◌%◌, ◌≤◌, ◌≡◌, refl, ap, sym, ◌∙◌, Bool, true, false, [], ◌∷◌, ◌++◌,
  append_assoc, arith, ltb, ltb-false, if◌then◌else◌, Bytes, length, length-append,
  length-replicate, drop-append_exact, replicate, sub-zero, suc-sub-suc, Result, ok, err, le32,
  u32_mod,
}
use dc_1_pmos.MkBoot.Image.{zeros, put_at}
use dc_1_pmos.MkBoot.Layout.{put_at-behind}

abbrev pub lk_magic : ℕ
lk_magic = 1485313672

abbrev pub lk_ext_magic : ℕ
lk_ext_magic = 1485379209

abbrev pub lk_hdr_size : ℕ
lk_hdr_size = 512

abbrev pub lk_ext_offset : ℕ
lk_ext_offset = 48

pub data LkError : Type 0 where
  long_name : Bytes → LkError

-- the writes to `ext := hdr[lkExtOffset:]`
unfoldable pub write_ext : Bytes → Bytes
write_ext hdr =
    let cleared = put_at lk_ext_offset (zeros 32) hdr in
    let marked = put_at lk_ext_offset (le32 lk_ext_magic) cleared in
    let sized = put_at (lk_ext_offset + 4) (le32 lk_hdr_size) marked in
    let versioned = put_at (lk_ext_offset + 8) (le32 1) sized in
    put_at (lk_ext_offset + 20) (le32 16) versioned

unfoldable pub lk_header : ℕ → Bytes → ℕ → Bool → Bytes
lk_header size name load_addr ext_header =
    let blank = replicate lk_hdr_size 255 in
    let sized = put_at 4 (le32 size) (put_at 0 (le32 lk_magic) blank) in
    let named = put_at 8 name (put_at 8 (zeros 32) sized) in
    let hdr = put_at 44 (le32 4294967295) (put_at 40 (le32 load_addr) named) in
    if ext_header then write_ext hdr else hdr

unfoldable pub lk_wrap : Bytes → Bytes → ℕ → Bool → Result LkError Bytes
lk_wrap payload name load_addr ext_header =
    if ltb 31 (length name)
    then err (long_name name)
    else ok (lk_header (length payload % u32_mod) name load_addr ext_header ++ payload)

-- The header as the comment of lkWrap draws it: two words, the name in 32 bytes, the load address and
-- the mode, the extended header or 0xFF, and 0xFF up to 512.
abbrev pub ext_words : Bool → Bytes
ext_words true =
    le32 lk_ext_magic ++ (le32 lk_hdr_size ++ (le32 1 ++ (zeros 8 ++ (le32 16 ++ zeros 8))))
ext_words false = replicate 32 255

abbrev pub lk_layout : ℕ → Bytes → ℕ → Bool → Bytes
lk_layout size name load_addr ext_header =
    le32 lk_magic
    ++ (le32 size
        ++ ((name ++ zeros (32 - length name))
            ++ (le32 load_addr
                ++ (le32 4294967295 ++ (ext_words ext_header ++ replicate 432 255)))))

put_at-start : (s ys zs : Bytes) → length s ≡ length ys → put_at 0 s (ys ++ zs) ≡ s ++ zs
unfolding put_at
put_at-start s ys zs h =
    ap (λ (r : Bytes). s ++ r) (drop-append_exact ys zs (0 + length s) (omega arith))

zeros_split :
    (m : ℕ) (s : Bytes) → length s ≤ m → zeros m ≡ zeros (length s) ++ zeros (m - length s)
zeros_split m [] h = rw (sub-zero m)
zeros_split zero (x ∷ xs) h = absurd (omega arith)
zeros_split (suc m) (x ∷ xs) h =
    ap (λ (r : Bytes). 0 ∷ r) (zeros_split m xs (omega arith))
    ∙ ap (λ (n : ℕ). zeros (suc (length xs)) ++ zeros n) (sym (suc-sub-suc m (length xs)))

-- the first two words and the name
abbrev lk_front : ℕ → Bytes → Bytes
lk_front size name = (le32 lk_magic ++ le32 size) ++ (name ++ zeros (32 - length name))

length-lk_front : (size : ℕ) (name : Bytes) → length name ≤ 31 → length (lk_front size name) ≡ 40
unfolding le32
length-lk_front size name h = omega (
  arith,
  length-append name (zeros (32 - length name)),
  length-replicate {A = ℕ} (32 - length name) 0,
)

named_front :
    (size : ℕ) (name rest : Bytes)
    → length name ≤ 31
    → put_at 8 name ((le32 lk_magic ++ le32 size) ++ (zeros 32 ++ rest))
      ≡ lk_front size name ++ rest
named_front size name rest h =
    let pre : Bytes = le32 lk_magic ++ le32 size in
    let fill : Bytes = zeros (32 - length name) in
    let eight : 8 ≡ length pre + 0 = unfold le32 in refl in
    put_at-behind pre name (zeros 32 ++ rest) 8 0 eight
    ∙ ap (λ (z : Bytes). pre ++ put_at 0 name (z ++ rest)) (zeros_split 32 name (omega arith))
    ∙ ap (λ (z : Bytes). pre ++ put_at 0 name z) (append_assoc (zeros (length name)) fill rest)
    ∙ ap (λ (z : Bytes). pre ++ z)
        (put_at-start name (zeros (length name)) (fill ++ rest)
          (sym (length-replicate {A = ℕ} (length name) 0)))
    ∙ ap (λ (z : Bytes). pre ++ z) (sym (append_assoc name fill rest))
    ∙ sym (append_assoc pre (name ++ fill) rest)

-- a write behind the name
behind_front :
    (size : ℕ) (name s b : Bytes) (off k : ℕ)
    → length name ≤ 31
    → off ≡ 40 + k
    → put_at off s (lk_front size name ++ b) ≡ lk_front size name ++ put_at k s b
behind_front size name s b off k h e =
    put_at-behind (lk_front size name) s b off k (omega (arith, length-lk_front size name h))

write_ext-behind :
    (size : ℕ) (name b : Bytes)
    → length name ≤ 31
    → write_ext (lk_front size name ++ b)
      ≡ lk_front size name
        ++ put_at 28 (le32 16) (
            put_at 16
              (le32 1)
              (put_at 12 (le32 lk_hdr_size) (put_at 8 (le32 lk_ext_magic) (put_at 8 (zeros 32) b))))
unfolding write_ext
write_ext-behind size name b h = rw (behind_front size name (zeros 32) b 48 8 h refl) (
    rw (behind_front size name (le32 lk_ext_magic) _ 48 8 h refl) (
      rw (behind_front size name (le32 lk_hdr_size) _ 52 12 h refl) (
        rw (behind_front size name (le32 1) _ 56 16 h refl)
          (rw (behind_front size name (le32 16) _ 68 28 h refl)))))

lk_header_layout :
    (size : ℕ) (name : Bytes) (load_addr : ℕ) (ext_header : Bool)
    → length name ≤ 31
    → lk_header size name load_addr ext_header ≡ lk_layout size name load_addr ext_header
unfolding lk_header
lk_header_layout size name load_addr ext_header h =
    let rest : Bytes = replicate 472 255 in
    let plain : Bytes = le32 load_addr ++ (le32 4294967295 ++ replicate 464 255) in
    let cleared : put_at 8 (zeros 32)
          (put_at 4 (le32 size) (put_at 0 (le32 lk_magic) (replicate lk_hdr_size 255)))
        ≡ (le32 lk_magic ++ le32 size) ++ (zeros 32 ++ rest) =
      unfold put_at le32 in refl in
    let hdr : put_at 44 (le32 4294967295) (put_at 40 (le32 load_addr) (lk_front size name ++ rest))
        ≡ lk_front size name ++ plain =
      rw (behind_front size name (le32 load_addr) rest 40 0 h refl) (
        rw (behind_front size name (le32 4294967295) _ 44 4 h refl) (unfold put_at le32 in refl)) in
    let plain_end : lk_front size name ++ plain ≡ lk_layout size name load_addr false =
      unfold le32 in
      append_assoc (le32 lk_magic ++ le32 size) (name ++ zeros (32 - length name)) plain in
    let ext_end : write_ext (lk_front size name ++ plain) ≡ lk_layout size name load_addr true =
      write_ext-behind size name plain h
      ∙ (unfold put_at le32 in
          append_assoc (le32 lk_magic ++ le32 size) (name ++ zeros (32 - length name)) _) in
    rw cleared (
      rw (named_front size name rest h) (
        rw hdr
          (elim ext_header
            as (λ e.
              (if e then write_ext (lk_front size name ++ plain) else lk_front size name ++ plain)
              ≡ lk_layout size name load_addr e) [ true ↦ ext_end | false ↦ plain_end ])))

length-ext_words : (e : Bool) → length (ext_words e ++ replicate 432 255) ≡ 464
unfolding le32
length-ext_words true = refl
length-ext_words false = refl

length-lk_layout :
    (size : ℕ) (name : Bytes) (load_addr : ℕ) (ext_header : Bool)
    → length name ≤ 31
    → length (lk_layout size name load_addr ext_header) ≡ lk_hdr_size
unfolding le32
length-lk_layout size name load_addr ext_header h = omega (
  arith,
  length-append name (zeros (32 - length name)),
  length-replicate {A = ℕ} (32 - length name) 0,
  length-append (name ++ zeros (32 - length name)),
  length-ext_words ext_header,
)

-- For a name of up to 31 characters, lkWrap returns the header that its comment draws, of 512 bytes,
-- and the payload behind it.
pub lk_wrap_layout :
    (payload name : Bytes) (load_addr : ℕ) (ext_header : Bool)
    → length name ≤ 31
    → (lk_wrap payload name load_addr ext_header
        ≡ ok (lk_layout (length payload % u32_mod) name load_addr ext_header ++ payload))
      × (length (lk_layout (length payload % u32_mod) name load_addr ext_header) ≡ lk_hdr_size)
unfolding lk_wrap
lk_wrap_layout payload name load_addr ext_header h =
    let size = length payload % u32_mod in
    let into : Bytes → Result LkError Bytes = λ b. ok (b ++ payload) in
    let fits : ltb 31 (length name) ≡ false = ltb-false _ _ h in
    (
      rw fits (ap into (lk_header_layout size name load_addr ext_header h)),
      length-lk_layout size name load_addr ext_header h,
    )
