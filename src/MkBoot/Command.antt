-- ===== src/MkBoot/Command.antt =====
-- cmdPack of main.go behind the flag parser, and setArm64ImageSize.
pub mod Checked
use dc_1_pmos.Base.{
  ℕ, ◌+◌, ◌/◌, ◌%◌, ◌≤◌, ◌<◌, ◌≡◌, ◌≢◌, refl, ap, sym, subst, ◌∙◌, Bool, false, not, ◌&&◌, ◌||◌, [],
  ◌∷◌, ◌++◌, Option, none, some, inl, inr, arith, ltb, ◌==◌, if◌then◌else◌, Bytes, codes,
  bytes_equal, length, length-append, get_or, take, drop, All, Result, ok, err, ◌>>=◌, >>=-Passes,
  le32, u32_mod, Bool-cases,
}
use dc_1_pmos.MkBoot.Image.{ImageError, page_size, PackOpts, put_at, append_section, pack_boot}
use dc_1_pmos.MkBoot.Layout.{
  head, image_of, written_signature, length-fill_page, pack_boot_inv, pack_boot_aligned,
}
use dc_1_pmos.MkBoot.Sections.{FitsWords}
use dc_1_pmos.MkBoot.Verify.{cmd_verify, report_of}
use dc_1_pmos.MkBoot.Verify.RoundTrip.{verify-pack_boot}

abbrev pub boot_signature_size : ℕ
boot_signature_size = 4096

abbrev pub boot_part_size : ℕ
boot_part_size = 67108864

abbrev pub arm64_image_size_off : ℕ
arm64_image_size_off = 16

abbrev pub arm64_image_magic_off : ℕ
arm64_image_magic_off = 56

pub data PackError : Type 0 where
  missing_flags signature_needs_v4 size_of_gzip not_arm64 short_arm64 gzip_failed unwritten :
      PackError
  unread : Bytes → PackError
  bad_signature : ℕ → PackError
  bad_boot : ImageError → PackError
  too_large : ℕ → PackError

pub record PackFlags : Type 0 where
  pub kernel : Bytes
  pub gzip_kernel : Bool
  pub ramdisk : Bytes
  pub signature : Bytes
  pub out : Bytes
  pub cmdline : Bytes
  pub arm64_image_size : ℕ
  pub header_version : ℕ
  pub os_version : ℕ
  pub legacy_cmdline_offset : Bool

-- os.ReadFile, the gzip writer and os.WriteFile
pub record Host : Type 0 where
  pub read_file : Bytes → Option Bytes
  pub gzip : Bytes → Option Bytes
  pub write_file : Bytes → Bytes → Bool

unfoldable pub le64 : ℕ → Bytes
le64 n = le32 n ++ le32 (n / u32_mod)

unfoldable pub set_arm64_image_size : Bytes → ℕ → Result PackError Bytes
unfolding le64
set_arm64_image_size image size =
    if ltb (length image) (arm64_image_magic_off + 4)
      || not (bytes_equal (take 4 (drop arm64_image_magic_off image)) (codes "ARMd"))
    then err not_arm64
    else if ltb (length image) (arm64_image_size_off + 8)
    then err short_arm64
    else ok (put_at arm64_image_size_off (le64 size) image)

pub is_gzip : Bytes → Bool
is_gzip kb = ltb 2 (length kb) && (get_or kb 0 0 == 31 && get_or kb 1 0 == 139)

unfoldable pub as_read : Bytes → Option Bytes → Result PackError Bytes
as_read path none = err (unread path)
as_read path (some content) = ok content

unfoldable pub read_input : Host → Bytes → Result PackError Bytes
unfolding as_read
read_input h path = as_read path (h.read_file path)

-- `if *arm64ImageSize != 0`
unfoldable pub size_kernel : PackFlags → Bytes → Result PackError Bytes
unfolding is_gzip
size_kernel f kb =
    if f.arm64_image_size == 0
    then ok kb
    else if is_gzip kb
    then err size_of_gzip
    else set_arm64_image_size kb f.arm64_image_size

unfoldable pub as_compressed : Option Bytes → Result PackError Bytes
as_compressed none = err gzip_failed
as_compressed (some zb) = ok zb

-- `if *gzipKernel`, for the kernel as it was read and as it is now
unfoldable pub compress_kernel : Host → PackFlags → Bytes → Bytes → Result PackError Bytes
unfolding is_gzip as_compressed
compress_kernel h f raw kb =
    if f.gzip_kernel && not (is_gzip raw) then as_compressed (h.gzip kb) else ok kb

unfoldable pub read_ramdisk : Host → PackFlags → Result PackError Bytes
unfolding read_input
read_ramdisk h f = if length f.ramdisk == 0 then ok [] else read_input h f.ramdisk

unfoldable pub check_signature : Bytes → Result PackError Bytes
check_signature sb =
    if length sb == boot_signature_size then ok sb else err (bad_signature (length sb))

unfoldable pub read_signature : Host → PackFlags → Result PackError Bytes
unfolding read_input check_signature
read_signature h f =
    if length f.signature == 0 then ok [] else read_input h f.signature >>= check_signature

unfoldable pub check_flags : PackFlags → Result PackError PackFlags
check_flags f =
    if length f.kernel == 0 || length f.out == 0
    then err missing_flags
    else if not (length f.signature == 0) && ltb (f.header_version % u32_mod) 4
    then err signature_needs_v4
    else ok f

-- the packOpts that the flags and the files give
unfoldable pub pack_options : Host → PackFlags → Result PackError PackOpts
unfolding check_flags read_input
pack_options h f = do
  _ ← check_flags f
  raw ← read_input h f.kernel
  sized ← size_kernel f raw
  kb ← compress_kernel h f raw sized
  rb ← read_ramdisk h f
  sb ← read_signature h f
  ok (record {
    kernel = kb;
    ramdisk = rb;
    signature = sb;
    cmdline = f.cmdline;
    os_version = f.os_version % u32_mod;
    header_version = f.header_version % u32_mod;
    legacy_cmdline_offset = f.legacy_cmdline_offset;
  })

unfoldable pub as_boot : Result ImageError Bytes → Result PackError Bytes
as_boot (ok image) = ok image
as_boot (err e) = err (bad_boot e)

-- The file that os.WriteFile stored in full, and how the command ended: the size is checked last.
pub record Outcome : Type 0 where
  pub written : Option Bytes
  pub result : Result PackError ℕ

unfoldable pub write_image : Host → PackFlags → Result PackError Bytes → Outcome
write_image h f (err e) = record { written = none; result = err e }
write_image h f (ok image) =
    if h.write_file f.out image
    then record {
      written = some image;
      result =
          if ltb boot_part_size (length image)
          then err (too_large (length image))
          else ok (length image);
    }
    else record { written = none; result = err unwritten }

unfoldable pub cmd_pack : Host → PackFlags → Outcome
unfolding as_boot
cmd_pack h f = write_image h f (pack_options h f >>= λ o. as_boot (pack_boot o))
