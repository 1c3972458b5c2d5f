-- ===== src/MkBoot/Legacy.antt =====
-- The second copy of the command line that packBoot of main.go writes with -legacy-cmdline-offset.
use dc_1_pmos.Base.{
  ℕ, zero, suc, ◌+◌, ◌-◌, ◌≤◌, ◌<◌, ◌≡◌, ◌≢◌, refl, ap, sym, ◌∙◌, true, [], ◌∷◌, ◌++◌, append_assoc,
  arith, ltb, if◌then◌else◌, Bytes, length, length-append, length-replicate, length-take, take,
  drop, take-append_le, drop-append_le, drop-append_ge, All, All-append, sub-zero, suc-sub-suc, ok,
  le32, u32_mod,
}
use dc_1_pmos.MkBoot.Image.{
  cmdline_size, cmdline_off_v0, BootHdr, PackOpts, zeros, cstr, parse_boot, header_end, header_of,
  write_common, write_header, put_at, legacy_copy, pack_boot,
}
use dc_1_pmos.MkBoot.Layout.{
  cmdline_size-eq, length-write_header, length-header_of_cmdline, put_at-behind, pack_boot_inv,
}
use dc_1_pmos.MkBoot.Header.{IsHeader, header_of-IsHeader, image_of-header, parse_boot-write_header}
use dc_1_pmos.MkBoot.Verify.RoundTrip.{cstr_padded}

-- A command line that fits behind 20 bytes of itself.
pub record Overlaps (o : PackOpts) : Type 0 where
  pub copies : o.legacy_cmdline_offset ≡ true
  pub reaches_copy : 20 ≤ length o.cmdline
  pub room_left : length o.cmdline ≤ 1515

-- What the field at offset 44 then holds.
garbled : PackOpts → Bytes
garbled o = take 20 o.cmdline ++ (o.cmdline ++ zeros (1516 - length o.cmdline))

drop-zeros : (m n : ℕ) → drop m (zeros n) ≡ zeros (n - m)
drop-zeros zero n = rw (sub-zero n)
drop-zeros (suc m) zero = let none_left : 0 - suc m ≡ 0 = omega arith in rw none_left
drop-zeros (suc m) (suc n) = rw (suc-sub-suc n m) (drop-zeros m n)

front : BootHdr → Bytes
front h = write_common (record h { cmdline = [] }) []

length-front : (o : PackOpts) → length (front (header_of o)) ≡ 44
unfolding front write_common le32 header_of
length-front o = refl

-- the header with another text in the field of the command line
abbrev with_cmdline : PackOpts → Bytes → BootHdr
with_cmdline o c = record (header_of o) { cmdline = c }

-- what packBoot writes behind the field
abbrev tail_of : PackOpts → Bytes
tail_of o = if ltb o.header_version 4 then [] else le32 (header_of o).signature_size

write_header-with_cmdline :
    (o : PackOpts) (c : Bytes)
    → write_header (with_cmdline o c) ≡ front (header_of o) ++ (c ++ tail_of o)
unfolding write_header write_common le32 header_of front
write_header-with_cmdline o c = refl

header_of-with_cmdline :
    (o : PackOpts) → header_of o ≡ with_cmdline o (o.cmdline ++ zeros (1536 - length o.cmdline))
unfolding header_of cmdline_size
header_of-with_cmdline o = refl

copy_happens :
    (o : PackOpts) (b : Bytes)
    → o.legacy_cmdline_offset ≡ true
    → cmdline_off_v0 + length o.cmdline < length b
    → legacy_copy o b ≡ put_at cmdline_off_v0 o.cmdline b
unfolding legacy_copy
copy_happens o b on room = ground arith

-- The copy within the field and what follows it.
overwrite :
    (c tail : Bytes)
    → 20 ≤ length c
    → length c ≤ 1515
    → put_at 20 c ((c ++ zeros (1536 - length c)) ++ tail)
      ≡ (take 20 c ++ (c ++ zeros (1516 - length c))) ++ tail
unfolding put_at
overwrite c tail low high =
    let k = 1536 - length c in
    let behind : 20 + length c - length c ≡ 20 = omega arith in
    let left : k - 20 ≡ 1516 - length c = omega arith in
    let room : 20 ≤ length (zeros k) = omega (arith, length-replicate {A = ℕ} k 0) in
    rw (append_assoc c (zeros k) tail) (
      rw (take-append_le c (zeros k ++ tail) 20 low) (
        rw (drop-append_ge c (zeros k ++ tail) (20 + length c) (omega arith)) (
          rw behind (
            rw (drop-append_le (zeros k) tail 20 room) (
              rw (drop-zeros 20 k) (
                rw left (
                  sym (
                    append_assoc (take 20 c) (c ++ zeros (1516 - length c)) tail
                    ∙ ap (λ (r : Bytes). take 20 c ++ r)
                        (append_assoc c (zeros (1516 - length c)) tail)))))))))

header_end_ge : (v : ℕ) → 1580 ≤ header_end v
unfolding header_end
header_end_ge v = ground arith

legacy_copy-garbled :
    (o : PackOpts)
    → Overlaps o
    → legacy_copy o (write_header (header_of o)) ≡ write_header (with_cmdline o (garbled o))
unfolding garbled
legacy_copy-garbled o w =
    let h = header_of o in
    let field : Bytes = o.cmdline ++ zeros (1536 - length o.cmdline) in
    let fits : length o.cmdline < cmdline_size = omega (arith, w.room_left, cmdline_size-eq) in
    let len = length-write_header h (unfold header_of in refl) (length-header_of_cmdline o fits) in
    copy_happens o (write_header h) w.copies
      (omega (arith, w.room_left, header_end_ge h.header_version))
    ∙ ap (λ (g : BootHdr). put_at 64 o.cmdline (write_header g)) (header_of-with_cmdline o)
    ∙ ap (put_at 64 o.cmdline) (write_header-with_cmdline o field)
    ∙ put_at-behind (front h) o.cmdline (field ++ tail_of o) 64 20 (omega (arith, length-front o))
    ∙ ap (λ (r : Bytes). front h ++ r) (overwrite o.cmdline (tail_of o) w.reaches_copy w.room_left)
    ∙ sym (write_header-with_cmdline o (garbled o))

length-garbled : (o : PackOpts) → Overlaps o → length (garbled o) ≡ cmdline_size
unfolding garbled
length-garbled o w =
    let k = 1516 - length o.cmdline in
    omega (
      arith,
      w.room_left,
      w.reaches_copy,
      cmdline_size-eq,
      length-append (take 20 o.cmdline) (o.cmdline ++ zeros k),
      length-append o.cmdline (zeros k),
      length-replicate {A = ℕ} k 0,
      length-take 20 o.cmdline,
    )

set_cmdline-IsHeader :
    (h : BootHdr) (c : Bytes)
    → length c ≡ cmdline_size
    → IsHeader h
    → IsHeader (record h { cmdline = c })
set_cmdline-IsHeader h c len w = record {
  magic_ok = w.magic_ok;
  kernel_size_word = w.kernel_size_word;
  ramdisk_size_word = w.ramdisk_size_word;
  os_version_word = w.os_version_word;
  header_size_word = w.header_size_word;
  reserved_words = w.reserved_words;
  version_supported = w.version_supported;
  version_word = w.version_word;
  cmdline_whole = sym len;
  signature_size_word = w.signature_size_word;
  signature_size_v3 = w.signature_size_v3;
}

All-take : (P : ℕ → Type 0) (n : ℕ) (xs : Bytes) → All P xs → All P (take n xs)
All-take P zero xs h = tt
All-take P (suc n) [] h = tt
All-take P (suc n) (x ∷ xs) h = (h.0, All-take P n xs h.1)

cstr-garbled :
    (o : PackOpts) → All (λ b. b ≢ 0) o.cmdline → cstr (garbled o) ≡ take 20 o.cmdline ++ o.cmdline
unfolding garbled
cstr-garbled o text =
    let k = 1516 - length o.cmdline in
    ap cstr (sym (append_assoc (take 20 o.cmdline) o.cmdline (zeros k)))
    ∙ cstr_padded (take 20 o.cmdline ++ o.cmdline) k (
        All-append (λ b. b ≢ 0) (take 20 o.cmdline) o.cmdline
          (All-take (λ b. b ≢ 0) 20 o.cmdline text) text)

longer : (c : Bytes) → 20 ≤ length c → take 20 c ++ c ≢ c
longer c low same =
    let e : length (take 20 c ++ c) ≡ length c = ap (λ (b : Bytes). length b) same in
    omega (arith, length-append (take 20 c) c, length-take 20 c)

-- Where the second copy of the command line is asked for, and the command line has no NUL, 20 bytes or
-- more and at most 1515, parseBoot reads from the image, instead of the command line, its first 20
-- bytes and then all of it.
pub parse_boot-garbled :
    (o : PackOpts) {image : Bytes} (dump : Bytes)
    → pack_boot o ≡ ok image
    → Overlaps o
    → o.os_version < u32_mod
    → All (λ b. b ≢ 0) o.cmdline
    → (h : BootHdr) × (parse_boot (image ++ dump) ≡ ok h)
      × (cstr h.cmdline ≡ take 20 o.cmdline ++ o.cmdline)
      × (cstr h.cmdline ≢ o.cmdline)
parse_boot-garbled o dump packed w os text =
    let (p, e) = pack_boot_inv o packed in
    let (rest, shape) = image_of-header o in
    let h = with_cmdline o (garbled o) in
    let is_header : IsHeader h =
      set_cmdline-IsHeader (header_of o) (garbled o) (length-garbled o w)
        (header_of-IsHeader o p os) in
    let reads : cstr h.cmdline ≡ take 20 o.cmdline ++ o.cmdline = cstr-garbled o text in
    (
      h,
      rw e (
          rw (shape, legacy_copy-garbled o w)
            (rw (append_assoc (write_header h) rest dump)
              (parse_boot-write_header h (rest ++ dump) is_header))),
      reads,
      λ same. longer o.cmdline w.reaches_copy (sym reads ∙ same),
    )
