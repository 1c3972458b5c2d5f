-- ===== src/MkBoot/Verify.antt =====
-- cmdVerify of main.go: an image is parsed, packed again and compared.
pub mod RoundTrip
use dc_1_pmos.Base.{
  ℕ, zero, suc, ◌-◌, ◌<◌, min, ◌≡◌, ◌≢◌, refl, ap, sym, subst, ◌∙◌, Bool, false, ◌||◌, [], ◌∷◌,
  ◌++◌, Option, none, some, inl, inr, arith, ltb, ◌==◌, if◌then◌else◌, Bytes, codes, bytes_equal,
  bytes_equal_iff, length, length-append, length-take, take, drop, take-append_exact, take_all, All,
  Result, ok, err, ◌>>=◌, >>=-Passes, u32_mod, Bool-cases, Option-cases,
}
use dc_1_pmos.MkBoot.Image.{
  ImageError, page_size, cmdline_size, BootHdr, Parts, PackOpts, zeros, cstr, parse_boot, sections,
  header_of, legacy_copy, pack_boot,
}
use dc_1_pmos.MkBoot.Layout.{written_signature}
use dc_1_pmos.MkBoot.Sections.{FitsWords, sections-pack_boot}
use dc_1_pmos.MkBoot.Header.{parse_boot-pack_boot}

pub data VerifyError : Type 0 where
  bad_image : ImageError → VerifyError
  mismatch : ℕ → ℕ → ℕ → VerifyError

-- What cmdVerify prints: the bytes compared, those behind them and how many of them are not 0,
-- and whether an AVB blob starts there and an AVB footer ends the file.
pub record Report : Type 0 where
  pub compared : ℕ
  pub trailing : ℕ
  pub nonzero : ℕ
  pub has_vbmeta : Bool
  pub has_footer : Bool

pub image_result {ℓ} : {A : Type ℓ} → Result ImageError A → Result VerifyError A
image_result (ok a) = ok a
image_result (err e) = err (bad_image e)

-- The options that an image was packed with, as its header and its sections tell them.
unfoldable pub repack_opts : BootHdr → Parts → PackOpts
repack_opts h p = record {
  kernel = p.kernel;
  ramdisk = p.ramdisk;
  signature = p.signature;
  cmdline = cstr h.cmdline;
  os_version = h.os_version;
  header_version = h.header_version;
  legacy_cmdline_offset = false;
}

-- the first offset, from `i` on, where two slices differ
unfoldable pub first_mismatch : ℕ → Bytes → Bytes → Option (ℕ × ℕ × ℕ)
first_mismatch i (x ∷ xs) (y ∷ ys) =
    let later = first_mismatch (suc i) xs ys in if x == y then later else some (i, x, y)
first_mismatch i _ _ = none

-- the comparison: `bytes.Equal`, and the loop that finds the offset to report
unfoldable pub compare_images : Bytes → Bytes → Result VerifyError (Unit {0})
unfolding first_mismatch
compare_images rebuilt image =
    if bytes_equal rebuilt image then ok tt else elim (first_mismatch 0 rebuilt image) [
      | none ↦ ok tt
      | some (i, x, y) ↦ err (mismatch i x y)
    ]

unfoldable pub count_nonzero : Bytes → ℕ
count_nonzero [] = 0
count_nonzero (b ∷ bs) = let n = count_nonzero bs in if b == 0 then n else suc n

unfoldable pub has_prefix : Bytes → Bytes → Bool
has_prefix s prefix = bytes_equal (take (length prefix) s) prefix

unfoldable pub contains : Bytes → Bytes → Bool
contains [] needle = has_prefix [] needle
contains (b ∷ bs) needle = has_prefix (b ∷ bs) needle || contains bs needle

unfoldable pub report_of : Bytes → ℕ → Report
unfolding count_nonzero contains
report_of image n = record {
  compared = n;
  trailing = length (drop n image);
  nonzero = count_nonzero (drop n image);
  has_vbmeta = has_prefix (drop n image) (codes "AVB0");
  has_footer =
      if length (drop n image) == 0
      then false
      else contains (drop (length image - page_size) image) (codes "AVBf");
}

unfoldable pub cmd_verify : Bytes → Result VerifyError Report
cmd_verify image = do
  h ← image_result (parse_boot image)
  p ← image_result (sections h image)
  rebuilt ← image_result (pack_boot (repack_opts h p))
  let n = min (length rebuilt) (length image)
  _ ← compare_images (take n rebuilt) (take n image)
  ok (report_of image n)
