-- ===== src/MkBoot/Layout.antt =====
-- Lengths and page boundaries of what packBoot of main.go writes.
use dc_1_pmos.Base.{
  ℕ, ◌&&◌, ◌+◌, ◌-◌, ◌%◌, ◌≤◌, ◌<◌, ◌≡◌, refl, ap, ◌∙◌, [], ◌∷◌, ◌++◌, inl, inr, arith, ltb,
  if◌then◌else◌, Bytes, length, length-append, length-replicate, length-take, length-drop, take,
  drop, take-append_ge, drop-append_ge, append_assoc, ok, le32, Bool-cases,
}
use dc_1_pmos.MkBoot.Image.{
  BootHdr, page_size, cmdline_size, cmdline_off_v0, header_size_v3, header_end, pad, zeros,
  write_common, write_header, put_at, legacy_copy, fill_page, append_section, PackOpts, header_of,
  pack_boot,
}

pub pad_aligns : (n : ℕ) → (n + pad n) % page_size ≡ 0
unfolding pad
pad_aligns n = ground arith

pub pad_lt : (n : ℕ) → pad n < page_size
unfolding pad
pad_lt n = ground arith

pub pad_of_aligned : (n : ℕ) → n % page_size ≡ 0 → pad n ≡ 0
unfolding pad
pad_of_aligned n h = ground arith

pub length-fill_page : (b : Bytes) → length (fill_page b) ≡ length b + pad (length b)
unfolding fill_page
length-fill_page b =
    length-append b (zeros (pad (length b)))
    ∙ ap (λ (n : ℕ). length b + n) (length-replicate {A = ℕ} (pad (length b)) 0)

pub fill_page_aligned : (b : Bytes) → length (fill_page b) % page_size ≡ 0
fill_page_aligned b = rw (length-fill_page b) (pad_aligns (length b))

pub append_section_aligned :
    (b s : Bytes) → length b % page_size ≡ 0 → length (append_section b s) % page_size ≡ 0
unfolding append_section
append_section_aligned b [] h = h
append_section_aligned b (c ∷ cs) h = fill_page_aligned (b ++ (c ∷ cs))

length-le32 : (n : ℕ) (rest : Bytes) → length (le32 n ++ rest) ≡ 4 + length rest
unfolding le32
length-le32 n rest = omega arith

length-le32_self : (n : ℕ) → length (le32 n) ≡ 4
unfolding le32
length-le32_self n = refl

pub cmdline_size-eq : cmdline_size ≡ 1536
unfolding cmdline_size
cmdline_size-eq = refl

pub length-write_common :
    (h : BootHdr) (rest : Bytes)
    → length h.magic ≡ 8
    → length h.cmdline ≡ cmdline_size
    → length (write_common h rest) ≡ header_size_v3 + length rest
unfolding write_common
length-write_common h rest m c =
    omega (arith, length-append h.magic, length-append h.cmdline rest, length-le32, cmdline_size-eq)

pub length-write_header :
    (h : BootHdr)
    → length h.magic ≡ 8
    → length h.cmdline ≡ cmdline_size
    → length (write_header h) ≡ header_end h.header_version
unfolding write_header header_end
length-write_header h m c = elim (Bool-cases (ltb h.header_version 4)) [
  | inl v3 ↦ rw v3 (length-write_common h [] m c)
  | inr v4 ↦ rw v4 (
      length-write_common h (le32 h.signature_size) m c
      ∙ ap (λ (n : ℕ). header_size_v3 + n) (length-le32_self h.signature_size)
      ∙ omega arith)
]

pub length-put_at :
    (off : ℕ) (s b : Bytes) → off + length s ≤ length b → length (put_at off s b) ≡ length b
unfolding put_at
length-put_at off s b h = omega (
  arith,
  length-append (take off b) (s ++ drop (off + length s) b),
  length-append s (drop (off + length s) b),
  length-take off b,
  length-drop (off + length s) b,
)

-- A write behind a first part.
pub put_at-behind :
    (xs s b : Bytes) (off k : ℕ) → off ≡ length xs + k → put_at off s (xs ++ b) ≡ xs ++ put_at k s b
unfolding put_at
put_at-behind xs s b off k h =
    let e1 : off - length xs ≡ k = omega arith in
    let e2 : off + length s - length xs ≡ k + length s = omega arith in
    rw (take-append_ge xs b off (omega arith)) (
      rw (drop-append_ge xs b (off + length s) (omega arith))
        (rw e1 (rw e2 (append_assoc xs (take k b) (s ++ drop (k + length s) b)))))

-- The optional copy stays within the header that is there.
pub length-legacy_copy : (o : PackOpts) (b : Bytes) → length (legacy_copy o b) ≡ length b
unfolding legacy_copy
length-legacy_copy o b =
    elim (Bool-cases
      (o.legacy_cmdline_offset && ltb (cmdline_off_v0 + length o.cmdline) (length b))) [
        | inl copies ↦ rw copies (length-put_at cmdline_off_v0 o.cmdline b (ground arith))
        | inr skips ↦ rw skips
      ]

-- What packBoot has written before the sections.
abbrev pub head : PackOpts → Bytes
head o = fill_page (legacy_copy o (write_header (header_of o)))

pub length-header_of_cmdline :
    (o : PackOpts) → length o.cmdline < cmdline_size → length (header_of o).cmdline ≡ cmdline_size
unfolding header_of
length-header_of_cmdline o h =
    length-append o.cmdline (zeros (cmdline_size - length o.cmdline))
    ∙ ap (λ (n : ℕ). length o.cmdline + n)
        (length-replicate {A = ℕ} (cmdline_size - length o.cmdline) 0)
    ∙ omega arith

pub length-head :
    (o : PackOpts)
    → length o.cmdline < cmdline_size
    → length (head o) ≡ header_end o.header_version + pad (header_end o.header_version)
length-head o h =
    let len : length (legacy_copy o (write_header (header_of o))) ≡ header_end o.header_version =
      length-legacy_copy o (write_header (header_of o))
      ∙ length-write_header (header_of o) (unfold header_of in refl) (length-header_of_cmdline o h)
      ∙ unfold header_of in refl in
    length-fill_page (legacy_copy o (write_header (header_of o))) ∙ ap (λ (n : ℕ). n + pad n) len

-- The checks of packBoot, and the image behind them.
abbrev pub written_signature : PackOpts → Bytes
written_signature o = if ltb o.header_version 4 then [] else o.signature

abbrev pub image_of : PackOpts → Bytes
image_of o =
    append_section (append_section (append_section (head o) o.kernel) o.ramdisk)
      (written_signature o)

pub record IsPackable (o : PackOpts) : Type 0 where
  pub has_kernel : 0 < length o.kernel
  pub version_low : 3 ≤ o.header_version
  pub version_high : o.header_version ≤ 4
  pub cmdline_fits : length o.cmdline < cmdline_size

pub pack_boot_ok : (o : PackOpts) → IsPackable o → pack_boot o ≡ ok (image_of o)
unfolding pack_boot
pack_boot_ok o p = ground arith

-- packBoot returns an image exactly for the options that it can pack, and then this one.
pub pack_boot_inv :
    (o : PackOpts) {image : Bytes} → pack_boot o ≡ ok image → IsPackable o × (image ≡ image_of o)
unfolding pack_boot
pack_boot_inv o h = ground arith

-- Every image that packBoot returns is a whole number of pages.
pub pack_boot_aligned :
    (o : PackOpts) {image : Bytes} → pack_boot o ≡ ok image → length image % page_size ≡ 0
pack_boot_aligned o h = rw (pack_boot_inv o h).1 (
    append_section_aligned _ (written_signature o) (
      append_section_aligned _ o.ramdisk
        (append_section_aligned (head o) o.kernel (fill_page_aligned _))))
