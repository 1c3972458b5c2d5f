-- ===== src/MkBoot/Header.antt =====
-- parseBoot of main.go reads back the header that packBoot wrote.
use dc_1_pmos.Base.{
  ℕ, ◌+◌, ◌*◌, ◌/◌, ◌%◌, ◌≤◌, ◌<◌, ◌≡◌, refl, ap, sym, ◌∙◌, true, false, [], ◌++◌, append_assoc,
  inl, inr, arith, ltb, ltb-false, Bytes, bytes_equal, length, length-append, take,
  take-append_exact, drop-append_exact, Result, ok, ◌>>=◌, le32, word32, u32_mod, Bool-cases,
}
use dc_1_pmos.MkBoot.Image.{
  ImageError, boot_magic, cmdline_size, header_size_v3, header_size_v4, BootHdr, PackOpts, pad,
  zeros, read_u32, read_bytes, read_common, read_signature_size, check_version, parse_boot,
  header_end, header_of, write_common, write_header, legacy_copy, fill_page, pack_boot,
}
use dc_1_pmos.MkBoot.Layout.{
  length-write_common, length-header_of_cmdline, head, image_of, IsPackable, pack_boot_inv,
}
use dc_1_pmos.MkBoot.Sections.{added, append_section-added, image_of-kernel}

read_u32-le32 : (n : ℕ) (rest : Bytes) → n < u32_mod → read_u32 (le32 n ++ rest) ≡ ok (n, rest)
unfolding read_u32 le32 word32
read_u32-le32 n rest h =
    let e : n % 256
          + 256 * (n / 256 % 256)
          + 65536 * (n / 65536 % 256)
          + 16777216 * (n / 16777216 % 256)
        ≡ n =
      omega arith in
    rw e

read_bytes-append :
    (n : ℕ) (xs rest : Bytes) → n ≡ length xs → read_bytes n (xs ++ rest) ≡ ok (xs, rest)
unfolding read_bytes
read_bytes-append n xs rest h =
    let enough : ltb (length (xs ++ rest)) n ≡ false =
      ltb-false _ _ (omega (arith, length-append xs rest)) in
    rw enough (rw (take-append_exact xs rest n h, drop-append_exact xs rest n h))

-- A header that a file can hold.
pub record IsHeader (h : BootHdr) : Type 0 where
  pub magic_ok : h.magic ≡ boot_magic
  pub kernel_size_word : h.kernel_size < u32_mod
  pub ramdisk_size_word : h.ramdisk_size < u32_mod
  pub os_version_word : h.os_version < u32_mod
  pub header_size_word : h.header_size < u32_mod
  pub reserved_words :
      (h.reserved.0 < u32_mod)
      × (h.reserved.1 < u32_mod)
      × (h.reserved.2 < u32_mod)
      × (h.reserved.3 < u32_mod)
  pub version_supported : 3 ≤ h.header_version
  pub version_word : h.header_version < u32_mod
  pub cmdline_whole : cmdline_size ≡ length h.cmdline
  pub signature_size_word : h.signature_size < u32_mod
  pub signature_size_v3 : h.header_version < 4 → h.signature_size ≡ 0

read_common-write_common :
    (h : BootHdr) (rest : Bytes)
    → IsHeader h
    → read_common (write_common h rest) ≡ ok (record h { signature_size = 0 }, rest)
unfolding read_common write_common
read_common-write_common h rest w =
    rw (read_bytes-append 8 h.magic _ (ap (λ (m : Bytes). length m) (sym w.magic_ok))) (
      rw (read_u32-le32 h.kernel_size _ w.kernel_size_word) (
        rw (read_u32-le32 h.ramdisk_size _ w.ramdisk_size_word) (
          rw (read_u32-le32 h.os_version _ w.os_version_word) (
            rw (read_u32-le32 h.header_size _ w.header_size_word) (
              rw (read_u32-le32 h.reserved.0 _ w.reserved_words.0) (
                rw (read_u32-le32 h.reserved.1 _ w.reserved_words.1) (
                  rw (read_u32-le32 h.reserved.2 _ w.reserved_words.2) (
                    rw (read_u32-le32 h.reserved.3 _ w.reserved_words.3) (
                      rw (read_u32-le32 h.header_version _ w.version_word) (
                        rw (read_bytes-append cmdline_size h.cmdline rest w.cmdline_whole)))))))))))

write_common-append :
    (h : BootHdr) (xs ys : Bytes) → write_common h xs ++ ys ≡ write_common h (xs ++ ys)
unfolding write_common le32
write_common-append h xs ys = simp (append_assoc)

read_v3 :
    (h : BootHdr) (rest : Bytes) (total : ℕ)
    → IsHeader h
    → h.header_version < 4
    → read_signature_size total (record h { signature_size = 0 }) rest ≡ ok h
unfolding read_signature_size
read_v3 h rest total w v =
    let old : ltb h.header_version 4 ≡ true = ground arith in
    let set : ℕ → Result ImageError BootHdr = λ n. ok (record h { signature_size = n }) in
    rw old (ap set (sym (w.signature_size_v3 v)))

read_v4 :
    (h : BootHdr) (rest : Bytes) (total : ℕ)
    → IsHeader h
    → 4 ≤ h.header_version
    → header_size_v4 ≤ total
    → read_signature_size total (record h { signature_size = 0 }) (le32 h.signature_size ++ rest)
      ≡ ok h
unfolding read_signature_size
read_v4 h rest total w v enough =
    let new : ltb h.header_version 4 ≡ false = ltb-false _ _ v in
    let whole : ltb total header_size_v4 ≡ false = ltb-false _ _ enough in
    rw new (rw whole (rw (read_u32-le32 h.signature_size rest w.signature_size_word)))

magic_found : (h : BootHdr) (rest : Bytes) → IsHeader h → take 8 (write_common h rest) ≡ boot_magic
unfolding write_common
magic_found h rest w =
    take-append_exact h.magic _ 8 (ap (λ (m : Bytes). length m) (sym w.magic_ok)) ∙ w.magic_ok

-- parseBoot behind its check of the magic
parse_common :
    (h : BootHdr) (rest : Bytes)
    → IsHeader h
    → parse_boot (write_common h rest) ≡ (
        read_signature_size (header_size_v3 + length rest) (record h { signature_size = 0 }) rest
        >>= check_version)
unfolding parse_boot
parse_common h rest w =
    let len : length (write_common h rest) ≡ header_size_v3 + length rest =
      length-write_common h rest (ap (λ (m : Bytes). length m) w.magic_ok) (sym w.cmdline_whole) in
    let room : ltb (length (write_common h rest)) header_size_v3 ≡ false =
      ltb-false _ _ (omega arith) in
    let same : bytes_equal boot_magic boot_magic ≡ true = unfold bytes_equal in refl in
    rw room (rw (magic_found h rest w) (rw same (rw (read_common-write_common h rest w) (rw len))))

version_passes : (h : BootHdr) → 3 ≤ h.header_version → check_version h ≡ ok h
unfolding check_version
version_passes h v = let low : ltb h.header_version 3 ≡ false = ltb-false _ _ v in rw low

-- parseBoot reads back every header of version 3 or later whose fields fit their places and whose
-- signature size is 0 before version 4, whatever bytes follow it.
pub parse_boot-write_header :
    (h : BootHdr) (rest : Bytes) → IsHeader h → parse_boot (write_header h ++ rest) ≡ ok h
unfolding write_header
parse_boot-write_header h rest w = elim (Bool-cases (ltb h.header_version 4)) [
  | inl v3 ↦ rw v3 (
      rw (write_common-append h [] rest) (
        rw (parse_common h rest w) (
          rw (read_v3 h rest (header_size_v3 + length rest) w (ground arith))
            (version_passes h w.version_supported))))
  | inr v4 ↦
      let tail : Bytes = le32 h.signature_size ++ rest in
      let enough : header_size_v4 ≤ header_size_v3 + length tail = unfold le32 in omega arith in
      rw v4 (
        rw (write_common-append h (le32 h.signature_size) rest) (
          rw (parse_common h tail w) (
            rw (read_v4 h rest (header_size_v3 + length tail) w (ground arith) enough)
              (version_passes h w.version_supported))))
]

-- The header of options that packBoot accepts.
pub header_of-IsHeader :
    (o : PackOpts) → IsPackable o → o.os_version < u32_mod → IsHeader (header_of o)
header_of-IsHeader o p os =
    let one : (n : ℕ) → n % u32_mod < u32_mod = λ n. omega arith in
    record {
      magic_ok = unfold header_of in refl;
      kernel_size_word = unfold header_of in one (length o.kernel);
      ramdisk_size_word = unfold header_of in one (length o.ramdisk);
      os_version_word = unfold header_of in os;
      header_size_word = unfold header_of header_end in ground arith;
      reserved_words = unfold header_of in omega arith;
      version_supported = unfold header_of in p.version_low;
      version_word = unfold header_of in omega (arith, p.version_high);
      cmdline_whole = sym (length-header_of_cmdline o p.cmdline_fits);
      signature_size_word = unfold header_of in ground arith;
      signature_size_v3 = unfold header_of in λ v. ground arith;
    }

-- An image begins with its header, as the optional copy left it.
pub image_of-header :
    (o : PackOpts)
    → (rest : Bytes) × (image_of o ≡ legacy_copy o (write_header (header_of o)) ++ rest)
unfolding fill_page
image_of-header o =
    let (rest, e) = image_of-kernel o in
    let h = legacy_copy o (write_header (header_of o)) in
    let fill = zeros (pad (length h)) in
    let b = added (head o) o.kernel ++ rest in
    (
      fill ++ b,
      e
          ∙ ap (λ (x : Bytes). x ++ rest) (append_section-added (head o) o.kernel)
          ∙ append_assoc (head o) (added (head o) o.kernel) rest
          ∙ append_assoc h fill b,
    )

no_copy : (o : PackOpts) (b : Bytes) → o.legacy_cmdline_offset ≡ false → legacy_copy o b ≡ b
unfolding legacy_copy
no_copy o b off = ground arith

-- From every image that packBoot makes without the second copy of the command line, of an OS version
-- that is a uint32, whatever follows the image, parseBoot reads the header that packBoot filled in.
pub parse_boot-pack_boot :
    (o : PackOpts) {image : Bytes} (dump : Bytes)
    → pack_boot o ≡ ok image
    → o.legacy_cmdline_offset ≡ false
    → o.os_version < u32_mod
    → parse_boot (image ++ dump) ≡ ok (header_of o)
parse_boot-pack_boot o dump packed plain os =
    let (p, e) = pack_boot_inv o packed in
    let (rest, shape) = image_of-header o in
    rw e (
      rw (shape, no_copy o (write_header (header_of o)) plain)
        (rw (append_assoc (write_header (header_of o)) rest dump)
          (parse_boot-write_header (header_of o) (rest ++ dump) (header_of-IsHeader o p os))))
