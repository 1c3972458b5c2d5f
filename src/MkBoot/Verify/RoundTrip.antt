-- ===== src/MkBoot/Verify/RoundTrip.antt =====
-- cmdVerify of main.go and packBoot agree.
use dc_1_pmos.Base.{
  ℕ, zero, suc, ◌-◌, ◌<◌, min, ◌≡◌, ◌≢◌, refl, ap, sym, subst, ◌∙◌, Bool, false, [], ◌∷◌, ◌++◌,
  none, some, inl, inr, arith, ltb, ◌==◌, Bytes, bytes_equal, bytes_equal_iff, length,
  length-append, length-take, take, take-append_exact, take_all, All, Result, ok, err, ◌>>=◌,
  >>=-Passes, u32_mod, Bool-cases, Option-cases,
}
use dc_1_pmos.MkBoot.Image.{
  ImageError, cmdline_size, PackOpts, zeros, cstr, parse_boot, sections, header_of, legacy_copy,
  pack_boot,
}
use dc_1_pmos.MkBoot.Layout.{written_signature}
use dc_1_pmos.MkBoot.Sections.{FitsWords, sections-pack_boot}
use dc_1_pmos.MkBoot.Header.{parse_boot-pack_boot}
use dc_1_pmos.MkBoot.Verify.{
  VerifyError, Report, image_result, repack_opts, first_mismatch, compare_images, report_of,
  cmd_verify,
}

cstr-zeros : (n : ℕ) → cstr (zeros n) ≡ []
unfolding cstr
cstr-zeros zero = refl
cstr-zeros (suc n) = refl

-- A text without NUL is read back from a field that zeros fill.
pub cstr_padded : (s : Bytes) (n : ℕ) → All (λ b. b ≢ 0) s → cstr (s ++ zeros n) ≡ s
unfolding cstr
cstr_padded [] n h = cstr-zeros n
cstr_padded (b ∷ bs) n h =
    let b_set : (b == 0) ≡ false = ground (arith, h.0) in
    rw b_set (ap (◌∷◌ b) (cstr_padded bs n h.1))

first_mismatch-none :
    (i : ℕ) (xs ys : Bytes) → length xs ≡ length ys → first_mismatch i xs ys ≡ none → xs ≡ ys
unfolding first_mismatch
first_mismatch-none i [] [] len h = refl
first_mismatch-none i [] (y ∷ ys) len h = absurd (omega arith)
first_mismatch-none i (x ∷ xs) [] len h = absurd (omega arith)
first_mismatch-none i (x ∷ xs) (y ∷ ys) len h = elim (Bool-cases (x == y)) [
  | inl same ↦ ground (arith, first_mismatch-none (suc i) xs ys)
  | inr differ ↦ cc
]

-- The comparison passes exactly for equal slices.
pub compare_images_same : (xs : Bytes) → compare_images xs xs ≡ ok tt
unfolding compare_images
compare_images_same xs = rw ((bytes_equal_iff xs xs).1 refl)

mismatch_refuses :
    (xs ys : Bytes) {m : ℕ × ℕ × ℕ} {u : Unit {0}}
    → bytes_equal xs ys ≡ false
    → first_mismatch 0 xs ys ≡ some m
    → compare_images xs ys ≢ ok u
unfolding compare_images
mismatch_refuses xs ys differ e h = ground arith

pub compare_images_ok :
    (xs ys : Bytes) {u : Unit {0}} → length xs ≡ length ys → compare_images xs ys ≡ ok u → xs ≡ ys
unfolding compare_images
compare_images_ok xs ys len h = elim (Bool-cases (bytes_equal xs ys)) [
  | inl same ↦ (bytes_equal_iff xs ys).0 same
  | inr differ ↦ elim (Option-cases (first_mismatch 0 xs ys)) [
    | inl e ↦ first_mismatch-none 0 xs ys len e
    | inr (m, found) ↦ absurd (mismatch_refuses xs ys differ found h)
  ]
]

-- What a packed image tells of its options, and that they pack the same image again.
repack_opts-header_of :
    (o : PackOpts)
    → o.legacy_cmdline_offset ≡ false
    → All (λ b. b ≢ 0) o.cmdline
    → repack_opts
        (header_of o)
        (record { kernel = o.kernel; ramdisk = o.ramdisk; signature = written_signature o })
      ≡ record o { signature = written_signature o }
unfolding repack_opts header_of
repack_opts-header_of o plain text =
    let with_cmdline : Bytes → PackOpts = λ c. record o {
      signature = written_signature o;
      cmdline = c;
      legacy_cmdline_offset = false;
    } in
    let with_legacy : Bool → PackOpts =
      λ b. record o { signature = written_signature o; legacy_cmdline_offset = b } in
    ap with_cmdline (cstr_padded o.cmdline (cmdline_size - length o.cmdline) text)
    ∙ ap with_legacy (sym plain)

pack_boot-written_signature :
    (o : PackOpts) → pack_boot (record o { signature = written_signature o }) ≡ pack_boot o
unfolding pack_boot header_of legacy_copy
pack_boot-written_signature o = elim (Bool-cases (ltb o.header_version 4)) [
  | inl v3 ↦ rw v3
  | inr v4 ↦ rw v4
]

-- cmdVerify accepts the image that packBoot made of sections whose lengths a uint32 holds, of an OS
-- version that is a uint32 and of a command line without NUL, without its second copy, and whatever
-- follows the image in the file: every byte of the image is compared, and the rest is reported.
pub verify-pack_boot :
    (o : PackOpts) {image : Bytes} (dump : Bytes)
    → pack_boot o ≡ ok image
    → o.legacy_cmdline_offset ≡ false
    → o.os_version < u32_mod
    → FitsWords o
    → All (λ b. b ≢ 0) o.cmdline
    → cmd_verify (image ++ dump) ≡ ok (report_of (image ++ dump) (length image))
unfolding cmd_verify image_result
verify-pack_boot o {image} dump packed plain os fits text =
    let len : min (length image) (length (image ++ dump)) ≡ length image =
      omega (arith, length-append image dump) in
    rw (parse_boot-pack_boot o dump packed plain os) (
      rw (sections-pack_boot o dump packed fits) (
        rw (repack_opts-header_of o plain text) (
          rw (pack_boot-written_signature o) (
            rw packed (
              rw len (
                rw (take_all (length image) image (omega arith)) (
                  rw (take-append_exact image dump (length image) refl)
                    (rw (compare_images_same image)))))))))

image_result-ok :
    {A : Type 0} {B : Type 0} (r : Result ImageError A) (rest : A → Result VerifyError B) {b : B}
    → (image_result r >>= rest) ≡ ok b
    → (a : A) × (r ≡ ok a) × (rest a ≡ ok b)
unfolding image_result
image_result-ok (ok a) rest h = (a, refl, h)
image_result-ok (err e) rest h = cc

report_of-compared :
    (image : Bytes) (n : ℕ) {r : Report}
    → ◌≡◌ {A = Result VerifyError Report} (ok (report_of image n)) (ok r)
    → n ≡ r.compared
unfolding report_of
report_of-compared image n {r} h =
    let e : report_of image n ≡ r = cc in ap (λ (x : Report). x.compared) e

-- What cmdVerify found of an image that it accepts.
pub record Agrees (image : Bytes) (n : ℕ) : Type 0 where
  pub opts : PackOpts
  pub rebuilt : Bytes
  pub packs : pack_boot opts ≡ ok rebuilt
  pub compared_all : n ≡ min (length rebuilt) (length image)
  pub same_bytes : take n rebuilt ≡ take n image

-- Where cmdVerify accepts a file, some options pack an image that agrees with the file in as many
-- bytes as the report counts: all of the shorter one.
pub verify-Agrees : (image : Bytes) {r : Report} → cmd_verify image ≡ ok r → Agrees image r.compared
unfolding cmd_verify
verify-Agrees image {r} h =
    let (hdr, _, h1) = image_result-ok (parse_boot image) _ h in
    let (p, _, h2) = image_result-ok (sections hdr image) _ h1 in
    let (rebuilt, packs, h3) = image_result-ok (pack_boot (repack_opts hdr p)) _ h2 in
    let n = min (length rebuilt) (length image) in
    let (u, same, h4) = >>=-Passes (compare_images (take n rebuilt) (take n image)) _ h3 in
    let lens : length (take n rebuilt) ≡ length (take n image) =
      omega (arith, length-take n rebuilt, length-take n image) in
    let counted : n ≡ r.compared = report_of-compared image n h4 in
    record {
      opts = repack_opts hdr p;
      rebuilt = rebuilt;
      packs = packs;
      compared_all = sym counted;
      same_bytes =
          subst (λ (k : ℕ). take k rebuilt ≡ take k image) counted
            (compare_images_ok _ _ lens same);
    }
