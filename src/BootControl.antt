-- ===== src/BootControl.antt =====
-- installer/gotools/internal/bootctl/bootctl.go: the A/B control block, decoded and never written. The
-- bytes that Read takes from the misc partition are a parameter; CRC-32 is written out.
pub mod RoundTrip
mod Tests
use Prim.Native.Nat.{bit_xor}
use dc_1_pmos.Base.{
  ℕ, zero, suc, ◌+◌, ◌-◌, ◌/◌, ◌%◌, Bool, true, false, List, [], ◌∷◌, ◌++◌, Option, none, some,
  if◌then◌else◌, Bytes, codes, bytes_equal, length, take, ltb, ◌==◌, word32, le32, Result, ok, err,
}

abbrev pub block_size : ℕ
block_size = 32

abbrev pub control_magic : ℕ
control_magic = 1111573314

pub record SlotMetadata : Type 0 where
  pub priority_tries : ℕ
  pub slot_flags : ℕ

unfoldable pub priority : SlotMetadata → ℕ
priority s = s.priority_tries % 16

unfoldable pub tries : SlotMetadata → ℕ
tries s = s.priority_tries / 16 % 8

unfoldable pub successful : SlotMetadata → ℕ
successful s = s.priority_tries / 128 % 2

-- Control
pub record Control : Type 0 where
  pub slot_suffix : ℕ × ℕ × ℕ × ℕ
  pub block_magic : ℕ
  pub version : ℕ
  pub flags : ℕ
  pub reserved0 : ℕ × ℕ
  pub slots : SlotMetadata × SlotMetadata × SlotMetadata × SlotMetadata
  pub reserved1 : ℕ × ℕ × ℕ × ℕ × ℕ × ℕ × ℕ × ℕ
  pub crc32_le : ℕ

pub data ControlError : Type 0 where
  short_block : ℕ → ControlError

abbrev pub slot : ℕ → ℕ → SlotMetadata
slot p f = record { priority_tries = p; slot_flags = f }

-- Parse: the block may be longer than 32 bytes.
unfoldable pub parse : Bytes → Result ControlError Control
parse
      (s0 ∷ s1 ∷ s2 ∷ s3 ∷ m0 ∷ m1 ∷ m2 ∷ m3 ∷ v ∷ f ∷ r0 ∷ r1 ∷ p0 ∷ f0 ∷ p1 ∷ f1 ∷ p2 ∷ f2 ∷ p3
        ∷ f3 ∷ q0 ∷ q1 ∷ q2 ∷ q3 ∷ q4 ∷ q5 ∷ q6 ∷ q7 ∷ c0 ∷ c1 ∷ c2 ∷ c3 ∷ rest) =
    ok (record {
      slot_suffix = (s0, s1, s2, s3);
      block_magic = word32 m0 m1 m2 m3;
      version = v;
      flags = f;
      reserved0 = (r0, r1);
      slots = (slot p0 f0, slot p1 f1, slot p2 f2, slot p3 f3);
      reserved1 = (q0, q1, q2, q3, q4, q5, q6, q7);
      crc32_le = word32 c0 c1 c2 c3;
    })
parse b = err (short_block (length b))

-- crc32.ChecksumIEEE
unfoldable pub crc_bit : ℕ → ℕ
crc_bit c = if c % 2 == 1 then bit_xor (c / 2) 3988292384 else c / 2

unfoldable pub crc_bits : ℕ → ℕ → ℕ
crc_bits zero c = c
crc_bits (suc n) c = crc_bits n (crc_bit c)

unfoldable pub crc_update : ℕ → Bytes → ℕ
crc_update c [] = c
crc_update c (b ∷ bs) = crc_update (crc_bits 8 (bit_xor c b)) bs

unfoldable pub checksum : Bytes → ℕ
checksum b = bit_xor (crc_update 4294967295 b) 4294967295

-- ComputedCRC
unfoldable pub computed_crc : Bytes → ℕ
computed_crc b = if ltb (length b) block_size then 0 else checksum (take (block_size - 4) b)

-- What Dump prints.
pub record ControlReport : Type 0 where
  pub control : Control
  pub magic_ok : Bool
  pub want_crc : ℕ
  pub crc_ok : Bool

unfoldable pub report_control : Bytes → Control → ControlReport
report_control raw c = record {
  control = c;
  magic_ok = c.block_magic == control_magic;
  want_crc = computed_crc raw;
  crc_ok = c.crc32_le == computed_crc raw;
}

unfoldable pub dump_parsed : Bytes → Result ControlError Control → Result ControlError ControlReport
dump_parsed raw (err e) = err e
dump_parsed raw (ok c) = ok (report_control raw c)

unfoldable pub dump : Bytes → Result ControlError ControlReport
dump raw = dump_parsed raw (parse raw)

-- the words of the command line
unfoldable pub command_of : List Bytes → Bytes
command_of [] = codes "dump"
command_of (c ∷ cs) = c

-- Main, for the block that was read: the exit code and what was printed.
unfoldable pub main_dumped : Bytes → Result ControlError ControlReport → ℕ × Option ControlReport
main_dumped cmd (err e) = (1, none)
main_dumped cmd (ok r) = if bytes_equal cmd (codes "dump") then (0, some r) else (2, some r)

unfoldable pub main : List Bytes → Option Bytes → ℕ × Option ControlReport
main args none = (1, none)
main args (some raw) = main_dumped (command_of args) (dump raw)
