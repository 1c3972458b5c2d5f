-- ===== src/BootControl/Tests.antt =====
-- bootctl.go on a control block whose slot a has booted, and the check value of CRC-32.
use dc_1_pmos.Base.{◌≡◌, refl, true, ◌++◌, codes, arith, le32, word32, ok}
use dc_1_pmos.BootControl.{
  Control, control_magic, slot, parse, crc_bit, crc_bits, crc_update, checksum, computed_crc,
  ControlReport, report_control, dump, dump_parsed,
}
use dc_1_pmos.BootControl.RoundTrip.{block_of, parse-block_of}

check_value : checksum (codes "123456789") ≡ 3421780262
unfolding checksum crc_update crc_bits crc_bit
check_value = refl

abbrev control : Control
control = record {
  slot_suffix = (97, 0, 0, 0);
  block_magic = control_magic;
  version = 1;
  flags = 2;
  reserved0 = (0, 0);
  slots = (slot 255 0, slot 46 0, slot 0 0, slot 0 0);
  reserved1 = (0, 0, 0, 0, 0, 0, 0, 0);
  crc32_le = 2178112016;
}

abbrev shown : ControlReport
shown = record { control = control; magic_ok = true; want_crc = 2178112016; crc_ok = true }

dumps : dump (block_of control) ≡ ok shown
unfolding dump dump_parsed report_control parse computed_crc checksum crc_update crc_bits crc_bit
    le32 word32
dumps = refl

parse-block_of_example : parse (block_of control ++ codes "more") ≡ ok control
parse-block_of_example = parse-block_of control (codes "more") (omega arith) (omega arith)
