-- ===== src/MkBoot/Sections.antt =====
-- sections of main.go takes from an image of packBoot the kernel, the ramdisk and the signature.
use dc_1_pmos.Base.{
  ℕ, ◌+◌, ◌≤◌, ◌<◌, ◌≡◌, refl, ap, sym, ◌∙◌, false, [], ◌∷◌, ◌++◌, append-nil, append_assoc, inl,
  inr, arith, ltb, ltb-false, ◌==◌, if◌then◌else◌, Bytes, length, length-append, take, drop,
  take-append_exact, drop-append_exact, ok, u32_mod, Bool-cases,
}
use native.Mathlib.Nat.{mod-eq_of_lt}
use dc_1_pmos.MkBoot.Image.{
  BootHdr, PackOpts, pad, zeros, header_end, header_of, fill_page, append_section, take_section,
  sections, pack_boot,
}
use dc_1_pmos.MkBoot.Layout.{
  cmdline_size-eq, length-fill_page, head, length-head, image_of, written_signature, pack_boot_inv,
}

-- What a section adds to the bytes before it.
abbrev pub added : Bytes → Bytes → Bytes
added b [] = []
added b (c ∷ cs) = (c ∷ cs) ++ zeros (pad (length (b ++ (c ∷ cs))))

pub append_section-added : (b s : Bytes) → append_section b s ≡ b ++ added b s
unfolding append_section fill_page
append_section-added b [] = sym (append-nil b)
append_section-added b (c ∷ cs) = append_assoc b (c ∷ cs) (zeros (pad (length (b ++ (c ∷ cs)))))

-- A section in an image is found at the offset where it was appended, and leads to its own end.
take_section-append :
    (b s rest : Bytes)
    → take_section (append_section b s ++ rest) (length b) (length s)
      ≡ ok (s, length (append_section b s))
unfolding take_section append_section
take_section-append b [] rest = refl
take_section-append b (c ∷ cs) rest =
    let s : Bytes = c ∷ cs in
    let fill : Bytes = zeros (pad (length (b ++ s))) in
    let shape : fill_page (b ++ s) ++ rest ≡ b ++ (s ++ (fill ++ rest)) =
      unfold fill_page in append_assoc (b ++ s) fill rest ∙ append_assoc b s (fill ++ rest) in
    let len = length-append b (s ++ (fill ++ rest)) in
    let len' = length-append s (fill ++ rest) in
    let room : ltb (length (b ++ (s ++ (fill ++ rest)))) (length b + length s) ≡ false =
      ltb-false _ _ (omega arith) in
    let cut : take (length s) (drop (length b) (b ++ (s ++ (fill ++ rest)))) ≡ s =
      ap (take (length s)) (drop-append_exact b (s ++ (fill ++ rest)) (length b) refl)
      ∙ take-append_exact s (fill ++ rest) (length s) refl in
    let next : length b + length s + pad (length b + length s) ≡ length (fill_page (b ++ s)) =
      sym (length-fill_page (b ++ s) ∙ ap (λ (n : ℕ). n + pad n) (length-append b s)) in
    let some_bytes : (length s == 0) ≡ false = ground arith in
    rw shape (rw some_bytes (rw room (rw cut (rw next refl))))

-- Sizes that a uint32 holds.
pub record FitsWords (o : PackOpts) : Type 0 where
  pub kernel_fits : length o.kernel < u32_mod
  pub ramdisk_fits : length o.ramdisk < u32_mod
  pub signature_fits : length o.signature < u32_mod

pub image_of-kernel :
    (o : PackOpts) → (rest : Bytes) × (image_of o ≡ append_section (head o) o.kernel ++ rest)
image_of-kernel o =
    let b = append_section (head o) o.kernel in
    let c = append_section b o.ramdisk in
    (
      added b o.ramdisk ++ added c (written_signature o),
      append_section-added c (written_signature o)
          ∙ ap (λ (x : Bytes). x ++ added c (written_signature o))
              (append_section-added b o.ramdisk)
          ∙ append_assoc b (added b o.ramdisk) (added c (written_signature o)),
    )

-- The sections of a packed image, whatever else its header holds.
pub sections-image_of :
    (o : PackOpts) (h : BootHdr) (dump : Bytes)
    → length o.cmdline ≤ 1535
    → h.header_version ≡ o.header_version
    → h.kernel_size ≡ length o.kernel
    → h.ramdisk_size ≡ length o.ramdisk
    → (if ltb h.header_version 4 then 0 else h.signature_size) ≡ length (written_signature o)
    → sections h (image_of o ++ dump)
      ≡ ok (record { kernel = o.kernel; ramdisk = o.ramdisk; signature = written_signature o })
unfolding sections
sections-image_of o h dump fits v k r s =
    let b = append_section (head o) o.kernel in
    let c = append_section b o.ramdisk in
    let sig = written_signature o in
    let start : header_end h.header_version + pad (header_end h.header_version) ≡ length (head o) =
      ap (λ (n : ℕ). header_end n + pad (header_end n)) v
      ∙ sym (length-head o (omega (arith, cmdline_size-eq))) in
    let (rest, e) = image_of-kernel o in
    let one : take_section (image_of o ++ dump) (length (head o)) (length o.kernel)
        ≡ ok (o.kernel, length b) =
      rw e (rw (append_assoc b rest dump) (take_section-append (head o) o.kernel (rest ++ dump))) in
    let two : take_section (image_of o ++ dump) (length b) (length o.ramdisk)
        ≡ ok (o.ramdisk, length c) =
      rw (append_section-added c sig) (
        rw (append_assoc c (added c sig) dump)
          (take_section-append b o.ramdisk (added c sig ++ dump))) in
    let three = take_section-append c sig dump in
    rw start (rw k (rw one (rw r (rw two (rw s (rw three))))))

pub header_of_sizes :
    (o : PackOpts)
    → FitsWords o
    → ((header_of o).kernel_size ≡ length o.kernel)
      × ((header_of o).ramdisk_size ≡ length o.ramdisk)
      × ((if ltb (header_of o).header_version 4 then 0 else (header_of o).signature_size)
          ≡ length (written_signature o))
unfolding header_of
header_of_sizes o f = (
  mod-eq_of_lt f.kernel_fits,
  mod-eq_of_lt f.ramdisk_fits,
  elim (Bool-cases (ltb o.header_version 4)) [
    | inl v3 ↦ rw v3
    | inr v4 ↦ rw v4 (mod-eq_of_lt f.signature_fits)
  ],
)

-- From every image that packBoot makes of sections whose lengths a uint32 holds, with or without
-- the second copy of the command line, whatever follows the image, and for the header that it filled
-- in, `sections` takes the kernel, the ramdisk and, in version 4, the signature.
pub sections-pack_boot :
    (o : PackOpts) {image : Bytes} (dump : Bytes)
    → pack_boot o ≡ ok image
    → FitsWords o
    → sections (header_of o) (image ++ dump)
      ≡ ok (record { kernel = o.kernel; ramdisk = o.ramdisk; signature = written_signature o })
sections-pack_boot o dump packed fits =
    let (p, e) = pack_boot_inv o packed in
    let (k, r, s) = header_of_sizes o fits in
    rw e (
      sections-image_of o (header_of o) dump (omega (arith, p, cmdline_size-eq))
        (unfold header_of in refl) k r s)
