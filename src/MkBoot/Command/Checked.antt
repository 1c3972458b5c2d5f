-- ===== src/MkBoot/Command/Checked.antt =====
-- What cmdPack of main.go writes is what cmdVerify accepts.
use dc_1_pmos.Base.{
  ℕ, ◌+◌, ◌%◌, ◌≤◌, ◌<◌, ◌≡◌, ◌≢◌, refl, ap, sym, subst, ◌∙◌, false, [], ◌∷◌, ◌++◌, some, inl, inr,
  arith, ltb, ◌==◌, Bytes, length, length-append, All, Result, ok, err, ◌>>=◌, >>=-Passes, u32_mod,
  Bool-cases,
}
use dc_1_pmos.MkBoot.Image.{ImageError, page_size, PackOpts, append_section, pack_boot}
use dc_1_pmos.MkBoot.Layout.{
  head, image_of, written_signature, length-fill_page, pack_boot_inv, pack_boot_aligned,
}
use dc_1_pmos.MkBoot.Sections.{FitsWords}
use dc_1_pmos.MkBoot.Verify.{cmd_verify, report_of}
use dc_1_pmos.MkBoot.Verify.RoundTrip.{verify-pack_boot}
use dc_1_pmos.MkBoot.Command.{
  boot_signature_size, boot_part_size, PackError, PackFlags, Host, read_input, size_kernel,
  compress_kernel, read_ramdisk, check_signature, read_signature, check_flags, pack_options,
  as_boot, write_image, cmd_pack,
}

length-append_section_ge : (b s : Bytes) → length b + length s ≤ length (append_section b s)
unfolding append_section
length-append_section_ge b [] = omega arith
length-append_section_ge b (c ∷ cs) =
    omega (arith, length-append b (c ∷ cs), length-fill_page (b ++ (c ∷ cs)))

-- An image holds its kernel and its ramdisk.
length-image_of_ge : (o : PackOpts) → length o.kernel + length o.ramdisk ≤ length (image_of o)
length-image_of_ge o =
    let b = append_section (head o) o.kernel in
    omega (
      arith,
      length-append_section_ge (head o) o.kernel,
      length-append_section_ge b o.ramdisk,
      length-append_section_ge (append_section b o.ramdisk) (written_signature o),
    )

check_signature-ok :
    (sb : Bytes) {last : Bytes} → check_signature sb ≡ ok last → length last ≤ boot_signature_size
unfolding check_signature
check_signature-ok sb e = ground arith

read_signature_fits :
    (h : Host) (f : PackFlags) {sb : Bytes}
    → read_signature h f ≡ ok sb
    → length sb ≤ boot_signature_size
unfolding read_signature
read_signature_fits h f {sb} e = elim (Bool-cases (length f.signature == 0)) [
  | inl absent ↦ ground arith
  | inr present ↦
      let (raw, _, last) =
        >>=-Passes (read_input h f.signature) check_signature (rw present at e) in
      check_signature-ok raw last
]

-- What the command wrote when it reports no error.
abbrev Stores : Host → PackFlags → Result PackError Bytes → ℕ → Type 0
Stores h f r n =
    (image : Bytes) × (r ≡ ok image)
    × ((write_image h f r).written ≡ some image)
    × (length image ≡ n)
    × (n ≤ boot_part_size)

write_image-Stores :
    (h : Host) (f : PackFlags) (r : Result PackError Bytes) {n : ℕ}
    → (write_image h f r).result ≡ ok n
    → Stores h f r n
unfolding write_image
write_image-Stores h f (err e) w = cc
write_image-Stores h f (ok image) {n} w = elim (Bool-cases (h.write_file f.out image)) [
  | inl stored ↦ elim (Bool-cases (ltb boot_part_size (length image))) [
    | inl large ↦ absurd (ground arith)
    | inr small ↦
        let counted : length image ≡ n = ground arith in
        (image, refl, rw stored, counted, ground arith)
  ]
  | inr failed ↦ absurd (ground arith)
]

as_boot-ok : (r : Result ImageError Bytes) {image : Bytes} → as_boot r ≡ ok image → r ≡ ok image
unfolding as_boot
as_boot-ok (ok a) e = cc
as_boot-ok (err x) e = cc

-- What every set of options that cmdPack hands to packBoot satisfies.
record IsRequest (f : PackFlags) (o : PackOpts) : Type 0 where
  pub signature_small : length o.signature ≤ boot_signature_size
  pub cmdline_kept : o.cmdline ≡ f.cmdline
  pub os_word : o.os_version < u32_mod
  pub legacy_kept : o.legacy_cmdline_offset ≡ f.legacy_cmdline_offset

pack_options-IsRequest :
    (h : Host) (f : PackFlags) {o : PackOpts} → pack_options h f ≡ ok o → IsRequest f o
unfolding pack_options
pack_options-IsRequest h f {o} e =
    let (_, _, e1) = >>=-Passes (check_flags f) _ e in
    let (raw, _, e2) = >>=-Passes (read_input h f.kernel) _ e1 in
    let (sized, _, e3) = >>=-Passes (size_kernel f raw) _ e2 in
    let (kb, _, e4) = >>=-Passes (compress_kernel h f raw sized) _ e3 in
    let (rb, _, e5) = >>=-Passes (read_ramdisk h f) _ e4 in
    let (sb, signed, e6) = >>=-Passes (read_signature h f) _ e5 in
    let made : PackOpts = record {
      kernel = kb;
      ramdisk = rb;
      signature = sb;
      cmdline = f.cmdline;
      os_version = f.os_version % u32_mod;
      header_version = f.header_version % u32_mod;
      legacy_cmdline_offset = f.legacy_cmdline_offset;
    } in
    let same : made ≡ o = cc in
    let os : f.os_version % u32_mod < u32_mod = omega arith in
    subst (IsRequest f) same (record {
      signature_small = read_signature_fits h f signed;
      cmdline_kept = refl;
      os_word = os;
      legacy_kept = refl;
    })

-- Where cmdPack reports no error, for a command line without NUL and without its second copy, the file
-- that it wrote has no more bytes than the boot partition, in whole pages, and cmdVerify accepts it,
-- alone and in front of whatever else the partition holds.
pub cmd_pack-verify :
    (h : Host) (f : PackFlags) {n : ℕ} (dump : Bytes)
    → (cmd_pack h f).result ≡ ok n
    → f.legacy_cmdline_offset ≡ false
    → All (λ b. b ≢ 0) f.cmdline
    → (image : Bytes) × ((cmd_pack h f).written ≡ some image)
      × (length image ≤ boot_part_size)
      × (length image % page_size ≡ 0)
      × (cmd_verify (image ++ dump) ≡ ok (report_of (image ++ dump) (length image)))
unfolding cmd_pack
cmd_pack-verify h f {n} dump done plain text =
    let all : Result PackError Bytes = pack_options h f >>= λ o. as_boot (pack_boot o) in
    let (image, made, stored, counted, small) = write_image-Stores h f all done in
    let (o, asked, packs) = >>=-Passes (pack_options h f) (λ o. as_boot (pack_boot o)) made in
    let packed : pack_boot o ≡ ok image = as_boot-ok (pack_boot o) packs in
    let q = pack_options-IsRequest h f asked in
    let len : length (image_of o) ≡ length image =
      ap (λ (b : Bytes). length b) (sym (pack_boot_inv o packed).1) in
    let fits : FitsWords o = record {
      kernel_fits = omega (arith, length-image_of_ge o);
      ramdisk_fits = omega (arith, length-image_of_ge o);
      signature_fits = omega (arith, q.signature_small);
    } in
    (
      image,
      stored,
      omega arith,
      pack_boot_aligned o packed,
      verify-pack_boot o dump packed (q.legacy_kept ∙ plain) q.os_word fits
          (subst (λ (c : Bytes). All (λ b. b ≢ 0) c) (sym q.cmdline_kept) text),
    )
