-- ===== src/MkBoot/Tests.antt =====
-- Concrete boot images and lk headers: boot/mkboot/main.go on small inputs.
use dc_1_pmos.Base.{
  ◌≤◌, ◌%◌, ◌≡◌, ◌≢◌, refl, true, false, [], ◌∷◌, ◌++◌, none, some, arith, Bytes, codes,
  bytes_equal, if◌then◌else◌, length, take, All, le32, ok,
}
use dc_1_pmos.MkBoot.Image.{
  put_at, page_size, cmdline_size, header_end, BootHdr, PackOpts, cstr, header_of, write_common,
  write_header, sections, parse_boot, pack_boot, append_section, fill_page, legacy_copy, pad,
}
use dc_1_pmos.MkBoot.Layout.{IsPackable, image_of, written_signature, pack_boot_ok, cmdline_size-eq}
use dc_1_pmos.MkBoot.Sections.{FitsWords, sections-pack_boot}
use dc_1_pmos.MkBoot.Verify.{cmd_verify, report_of}
use dc_1_pmos.MkBoot.Verify.RoundTrip.{Agrees, verify-pack_boot, verify-Agrees}
use dc_1_pmos.MkBoot.Legacy.{parse_boot-garbled}
use dc_1_pmos.MkBoot.Command.{
  PackFlags, Host, cmd_pack, write_image, pack_options, size_kernel, compress_kernel, read_ramdisk,
  read_signature, boot_part_size,
}
use dc_1_pmos.MkBoot.Command.Checked.{cmd_pack-verify}
use dc_1_pmos.MkBoot.Lk.{lk_wrap, lk_header, write_ext}
use dc_1_pmos.MkBoot.LkCommand.{
  LkFlags, cmd_lk_wrap, wrap_read, write_lk, IsWrapped, cmd_lk_wrap-IsWrapped,
}

abbrev opts : PackOpts
opts = record {
  kernel = codes "kernel";
  ramdisk = codes "ramdisk";
  signature = codes "sig";
  cmdline = codes "console=ttyS0,921600n8 quiet";
  os_version = 77;
  header_version = 4;
  legacy_cmdline_offset = false;
}

opts-IsPackable : IsPackable opts
opts-IsPackable = record {
  has_kernel = omega arith;
  version_low = omega arith;
  version_high = omega arith;
  cmdline_fits = omega (arith, cmdline_size-eq);
}

opts-FitsWords : FitsWords opts
opts-FitsWords = record {
  kernel_fits = omega arith;
  ramdisk_fits = omega arith;
  signature_fits = omega arith;
}

text : All (λ b. b ≢ 0) opts.cmdline
text = ground arith

abbrev footer : Bytes
footer = codes "AVB0"

sections-pack_boot_example :
    sections (header_of opts) (image_of opts ++ footer)
    ≡ ok (record {
      kernel = opts.kernel;
      ramdisk = opts.ramdisk;
      signature = written_signature opts;
    })
sections-pack_boot_example =
    sections-pack_boot opts footer (pack_boot_ok opts opts-IsPackable) opts-FitsWords

verify-pack_boot_example :
    cmd_verify (image_of opts ++ footer)
    ≡ ok (report_of (image_of opts ++ footer) (length (image_of opts)))
verify-pack_boot_example =
    verify-pack_boot opts footer (pack_boot_ok opts opts-IsPackable) refl (omega arith)
      opts-FitsWords text

verify-Agrees_example : Agrees (image_of opts ++ footer) (length (image_of opts))
unfolding report_of
verify-Agrees_example = verify-Agrees (image_of opts ++ footer) verify-pack_boot_example

abbrev twice : PackOpts
twice = record opts { legacy_cmdline_offset = true }

twice-IsPackable : IsPackable twice
twice-IsPackable = record {
  has_kernel = omega arith;
  version_low = omega arith;
  version_high = omega arith;
  cmdline_fits = omega (arith, cmdline_size-eq);
}

parse_boot-garbled_example :
    (h : BootHdr) × (parse_boot (image_of twice ++ footer) ≡ ok h)
    × (cstr h.cmdline ≡ take 20 twice.cmdline ++ twice.cmdline)
    × (cstr h.cmdline ≢ twice.cmdline)
parse_boot-garbled_example =
    parse_boot-garbled twice footer (pack_boot_ok twice twice-IsPackable)
      (record { copies = refl; reaches_copy = omega arith; room_left = omega arith }) (omega arith)
      text

abbrev flags : PackFlags
flags = record {
  kernel = codes "Image.gz";
  gzip_kernel = true;
  ramdisk = [];
  signature = [];
  out = codes "boot.img";
  cmdline = codes "quiet";
  arm64_image_size = 0;
  header_version = 4;
  os_version = 0;
  legacy_cmdline_offset = false;
}

host : Host
host = record {
  read_file =
      λ path. if bytes_equal path (codes "Image.gz") then some (31 ∷ 139 ∷ 8 ∷ 0 ∷ []) else none;
  gzip = λ b. some (31 ∷ 139 ∷ 8 ∷ b);
  write_file = λ path image. true;
}

packs : (cmd_pack host flags).result ≡ ok 8192
unfolding cmd_pack host write_image pack_options bytes_equal size_kernel compress_kernel
    read_ramdisk read_signature pack_boot cmdline_size append_section fill_page legacy_copy
    write_header write_common header_of le32 pad header_end
packs = refl

cmd_pack-verify_example :
    (image : Bytes) × ((cmd_pack host flags).written ≡ some image)
    × (length image ≤ boot_part_size)
    × (length image % page_size ≡ 0)
    × (cmd_verify (image ++ footer) ≡ ok (report_of (image ++ footer) (length image)))
cmd_pack-verify_example = cmd_pack-verify host flags footer packs refl (ground arith)

abbrev lk_flags : LkFlags
lk_flags = record {
  input = codes "Image.gz";
  out = codes "lk.img";
  name = codes "lk";
  load_addr = 4294967295;
  ext_header = true;
}

wraps : (cmd_lk_wrap host lk_flags).result ≡ ok 516
unfolding cmd_lk_wrap wrap_read write_lk lk_wrap lk_header write_ext put_at le32 host bytes_equal
wraps = refl

cmd_lk_wrap-IsWrapped_example : IsWrapped host lk_flags 516
cmd_lk_wrap-IsWrapped_example = cmd_lk_wrap-IsWrapped host lk_flags wraps
