-- ===== src/MkBoot/Info.antt =====
-- cmdInfo of main.go: what it shows of an image.
use dc_1_pmos.Base.{
  ℕ, ◌-◌, ◌<◌, ◌≡◌, ◌≢◌, refl, false, ◌++◌, Option, none, some, ltb, if◌then◌else◌, Bytes, length,
  take, drop, All, Result, ok, ◌>>=◌, u32_mod,
}
use dc_1_pmos.MkBoot.Image.{
  ImageError, cmdline_size, cmdline_off_v0, BootHdr, Parts, PackOpts, cstr, parse_boot, sections,
  header_of, pack_boot,
}
use dc_1_pmos.MkBoot.Layout.{written_signature}
use dc_1_pmos.MkBoot.Sections.{FitsWords, header_of_sizes, sections-pack_boot}
use dc_1_pmos.MkBoot.Header.{parse_boot-pack_boot}
use dc_1_pmos.MkBoot.Verify.RoundTrip.{cstr_padded}

-- the lines of cmdInfo; that on the signature's size is left out before version 4
pub record Info : Type 0 where
  pub size : ℕ
  pub version : ℕ
  pub header_size : ℕ
  pub kernel_size : ℕ
  pub ramdisk_size : ℕ
  pub signature_size : Option ℕ
  pub os_version : ℕ
  pub cmdline : Bytes
  pub at_legacy : Bytes
  pub section_sizes : ℕ × ℕ × ℕ

unfoldable pub info_of : Bytes → BootHdr → Parts → Info
info_of image h p = record {
  size = length image;
  version = h.header_version;
  header_size = h.header_size;
  kernel_size = h.kernel_size;
  ramdisk_size = h.ramdisk_size;
  signature_size = if ltb h.header_version 4 then none else some h.signature_size;
  os_version = h.os_version;
  cmdline = cstr h.cmdline;
  at_legacy = cstr (take 64 (drop cmdline_off_v0 image));
  section_sizes = (length p.kernel, length p.ramdisk, length p.signature);
}

unfoldable pub cmd_info : Bytes → Result ImageError Info
cmd_info image = do h ← parse_boot image; p ← sections h image; ok (info_of image h p)

-- The numbers that the header states are those of the sections, and those that were packed.
pub record IsTold (o : PackOpts) (i : Info) : Type 0 where
  pub version_told : i.version ≡ o.header_version
  pub os_told : i.os_version ≡ o.os_version
  pub cmdline_told : i.cmdline ≡ o.cmdline
  pub kernel_told : i.kernel_size ≡ length o.kernel
  pub ramdisk_told : i.ramdisk_size ≡ length o.ramdisk
  pub sections_told :
      i.section_sizes ≡ (length o.kernel, length o.ramdisk, length (written_signature o))

info_of-IsTold :
    (o : PackOpts) (file : Bytes)
    → FitsWords o
    → All (λ b. b ≢ 0) o.cmdline
    → IsTold o (
        info_of file
          (header_of o)
          (record { kernel = o.kernel; ramdisk = o.ramdisk; signature = written_signature o }))
unfolding info_of header_of
info_of-IsTold o file fits text =
    let (k, r, s) = header_of_sizes o fits in
    record {
      version_told = refl;
      os_told = refl;
      cmdline_told = cstr_padded o.cmdline (cmdline_size - length o.cmdline) text;
      kernel_told = k;
      ramdisk_told = r;
      sections_told = refl;
    }

-- Of an image that packBoot made of sections whose lengths a uint32 holds, of an OS version that is a
-- uint32 and of a command line without NUL, without its second copy, and whatever follows the image in
-- the file, cmdInfo shows the version, the OS version, the command line and the lengths of the sections
-- that were packed, by the header and by the sections.
pub cmd_info-pack_boot :
    (o : PackOpts) {image : Bytes} (dump : Bytes)
    → pack_boot o ≡ ok image
    → o.legacy_cmdline_offset ≡ false
    → o.os_version < u32_mod
    → FitsWords o
    → All (λ b. b ≢ 0) o.cmdline
    → (i : Info) × (cmd_info (image ++ dump) ≡ ok i) × IsTold o i
unfolding cmd_info
cmd_info-pack_boot o {image} dump packed plain os fits text =
    let p : Parts = record {
      kernel = o.kernel;
      ramdisk = o.ramdisk;
      signature = written_signature o;
    } in
    (
      info_of (image ++ dump) (header_of o) p,
      rw (parse_boot-pack_boot o dump packed plain os) (rw (sections-pack_boot o dump packed fits)),
      info_of-IsTold o (image ++ dump) fits text,
    )
