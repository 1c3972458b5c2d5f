-- ===== src/RebootFastboot.antt =====
-- installer/gotools/internal/rebootfastboot/rebootfastboot.go: the note that LK reads on the way up. The
-- tablet is the contents of its block devices and the 32-bit words of its physical memory, by the file
-- that maps them. What the system answers to each call is a parameter. The flags are taken as parsed.
pub mod Command
pub mod Steps
pub mod Reaches
pub mod Lk
pub mod Misc
mod Tests
pub mod Untouched
pub mod Across
pub mod Keeps
use dc_1_pmos.Base.{
  ℕ, ◌+◌, ◌-◌, ◌*◌, ◌/◌, ◌%◌, Bool, true, false, not, ◌&&◌, ◌||◌, List, [], ◌∷◌, ◌++◌, Option, none,
  some, if◌then◌else◌, Bytes, codes, bytes_equal, length, take, replicate, leb, ltb, ◌==◌, zero,
  suc, Result, ok, err,
}
use dc_1_pmos.Std.Strings.{trim_space, cut_prefix}
use dc_1_pmos.Std.Strconv.{is_digit, parse_uint}
use dc_1_pmos.Partition.{Sysfs, matching}

abbrev pub wdt_base : ℕ
wdt_base = 268464128

abbrev pub wdt_non_rst2 : ℕ
wdt_non_rst2 = 36

abbrev pub boot_mode_fastboot : ℕ
boot_mode_fastboot = 3

abbrev pub misc_max_sectors : ℕ
misc_max_sectors = 32768

abbrev pub bcb_clear_bytes : ℕ
bcb_clear_bytes = 64

pub record Tablet : Type 0 where
  pub disk : Bytes → Bytes
  pub word : Bytes → ℕ → ℕ

unfoldable pub set_disk : Bytes → Bytes → Tablet → Tablet
set_disk dev content t = record t { disk = λ d. if bytes_equal d dev then content else t.disk d }

unfoldable pub set_word : Bytes → ℕ → ℕ → Tablet → Tablet
set_word file address value t = record t {
  word = λ f a. if bytes_equal f file && a == address then value else t.word f a;
}

-- What the system answers. `opens file for_writing`; `stores dev old data` is what the device holds
-- behind a write of `data` at its start, and whether the write reported no error; `takes old value` is
-- what the register holds behind a store.
pub record System : Type 0 where
  pub env : Bytes → Bytes
  pub block_class : Bytes → Option Sysfs
  pub as_root : Bool
  pub opens : Bytes → Bool → Bool
  pub reads : Bytes → Bool
  pub reads_again : Bytes → Bool
  pub syncs : Bytes → Bool
  pub stores : Bytes → Bytes → Bytes → Bytes × Bool
  pub maps : Bytes → ℕ → Bool
  pub takes : ℕ → ℕ → ℕ
  pub execs_reboot : Bool
  pub restarts : Bool

unfoldable pub env_or : System → Bytes → Bytes → Bytes
env_or s name fallback = if length (s.env name) == 0 then fallback else s.env name

pub data MiscError : Type 0 where
  bad_glob : MiscError
  not_unique : ℕ → MiscError
  no_size bad_size too_large : Bytes → MiscError

-- strconv.ParseUint(s, 10, 64)
unfoldable pub parse_uint64 : Bytes → Option ℕ
parse_uint64 s = elim (parse_uint s) [
  | none ↦ none
  | some n ↦ if ltb n 18446744073709551616 then some n else none
]

-- filepath.Join of a clean directory and a name in it
unfoldable pub join : Bytes → Bytes → Bytes
join dir name = dir ++ (codes "/" ++ name)

unfoldable pub check_misc : Bytes → Bytes → Option ℕ → Result MiscError Bytes
check_misc devdir dev none = err (bad_size dev)
check_misc devdir dev (some sectors) =
    if ltb misc_max_sectors sectors then err (too_large dev) else ok (join devdir dev)

unfoldable pub sized_misc : Bytes → Bytes → Option Bytes → Result MiscError Bytes
sized_misc devdir dev none = err (no_size dev)
sized_misc devdir dev (some raw) = check_misc devdir dev (parse_uint64 (trim_space raw))

unfoldable pub unique_misc : Bytes → Sysfs → List Bytes → Result MiscError Bytes
unique_misc devdir sys (dev ∷ []) = sized_misc devdir dev (sys.size_file dev)
unique_misc devdir sys found = err (not_unique (length found))

unfoldable pub find_misc : Bytes → Option Sysfs → Result MiscError Bytes
find_misc devdir none = err bad_glob
find_misc devdir (some sys) = unique_misc devdir sys (matching (codes "misc") sys.uevents)

unfoldable pub resolve_misc : System → Result MiscError Bytes
resolve_misc s =
    find_misc (env_or s (codes "DC1_DEVDIR") (codes "/dev"))
      (s.block_class (env_or s (codes "DC1_SYSBLOCK") (codes "/sys/class/block")))

pub data BcbError : Type 0 where
  cannot_open short_read clear_failed sync_failed not_clear : BcbError

pub data ArmError : Type 0 where
  bad_base no_memory not_mapped : ArmError
  not_taken : ℕ → ℕ → ArmError

pub data Notice : Type 0 where
  misc_is command_is : Bytes → Notice
  would_clear cleared_bcb would_set rebooting : Notice
  nibble_is : ℕ → ℕ → ℕ → Notice
  armed_as : ℕ → ℕ → Notice
  must_be_root reboot_failed : Notice
  unchecked : MiscError → Notice
  bcb_failed : BcbError → Notice
  arm_failed : ArmError → Notice

-- What a step leaves: the error it returned, if any, the tablet and what was said.
pub record Step (E : Type 0) : Type 0 where
  pub failed : Option E
  pub tablet : Tablet
  pub said : List Notice

module _ {E : Type 0} where
  abbrev pub fails : E → Tablet → Step E
  fails e t = record { failed = some e; tablet = t; said = [] }

  abbrev pub done : List Notice → Tablet → Step E
  done ms t = record { failed = none; tablet = t; said = ms }

  abbrev pub saying : Notice → Step E → Step E
  saying m r = record r { said = m ∷ r.said }

unfoldable pub clen : Bytes → ℕ
clen [] = 0
clen (zero ∷ cs) = 0
clen (suc c ∷ cs) = suc (clen cs)

unfoldable pub printable : Bytes → Bytes
printable [] = []
printable (zero ∷ cs) = []
printable (suc c ∷ cs) = (if leb 32 (suc c) && ltb (suc c) 127 then suc c else b'.') ∷ printable cs

-- a read of the 32 bytes of the command
unfoldable pub read_command : Bool → Bytes → Option Bytes
read_command reads content =
    if reads && leb 32 (length content) then some (take 32 content) else none

unfoldable pub is_armed : Bytes → Bool
is_armed current =
    bytes_equal current (codes "boot-fastboot") || bytes_equal current (codes "boot-recovery")

unfoldable pub check_clear : Tablet → Option Bytes → Step BcbError
check_clear t (some (zero ∷ cs)) = done (cleared_bcb ∷ []) t
check_clear t _ = fails not_clear t

unfoldable pub clear_bcb : System → Bytes → Tablet → Bytes × Bool → Step BcbError
clear_bcb s dev t (content, false) = fails clear_failed (set_disk dev content t)
clear_bcb s dev t (content, true) =
    if s.syncs dev
    then check_clear (set_disk dev content t) (read_command (s.reads_again dev) content)
    else fails sync_failed (set_disk dev content t)

unfoldable pub disarm_command : System → Bytes → Bool → Tablet → Bool → Step BcbError
disarm_command s dev dry t false = done [] t
disarm_command s dev true t true = done (would_clear ∷ []) t
disarm_command s dev false t true =
    clear_bcb s dev t (s.stores dev (t.disk dev) (replicate bcb_clear_bytes 0))

unfoldable pub disarm_read : System → Bytes → Bool → Tablet → Option Bytes → Step BcbError
disarm_read s dev dry t none = fails short_read t
disarm_read s dev dry t (some cmd) =
    saying (command_is (printable cmd))
      (disarm_command s dev dry t (is_armed (take (clen cmd) cmd)))

-- DisarmBCB
unfoldable pub disarm_bcb : System → Bytes → Bool → Tablet → Step BcbError
disarm_bcb s dev dry t =
    if s.opens dev (not dry)
    then disarm_read s dev dry t (read_command (s.reads dev) (t.disk dev))
    else fails cannot_open t

-- (old &^ bootModeMask) | bootModeFastboot, and old & bootModeMask
unfoldable pub with_fastboot : ℕ → ℕ
with_fastboot old = old / 16 * 16 + boot_mode_fastboot

abbrev pub nibble : ℕ → ℕ
nibble value = value % 16

unfoldable pub arm_stored : Bytes → ℕ → ℕ → ℕ → Tablet → Step ArmError
arm_stored file address old got t =
    if nibble got == boot_mode_fastboot
    then done (armed_as old got ∷ []) (set_word file address got t)
    else fails (not_taken (with_fastboot old) got) (set_word file address got t)

unfoldable pub arm_word : System → Bytes → ℕ → Bool → ℕ → Tablet → Step ArmError
arm_word s file address true old t = done (would_set ∷ []) t
arm_word s file address false old t =
    arm_stored file address old (s.takes old (with_fastboot old)) t

-- armMapping
unfoldable pub arm_mapping : System → Bytes → ℕ → Bool → Tablet → Step ArmError
arm_mapping s file base dry t =
    let address = base + wdt_non_rst2 in
    let old = t.word file address in
    saying (nibble_is address old (nibble old)) (arm_word s file address dry old t)

-- strconv.ParseUint(s, 16, 64)
unfoldable pub hex_digit : ℕ → Option ℕ
hex_digit c =
    if is_digit c
    then some (c - 48)
    else if leb b'a' c && leb c b'f'
    then some (c - 87)
    else if leb b'A' c && leb c b'F'
    then some (c - 55)
    else none

unfoldable pub hex_value : ℕ → Bytes → Option ℕ
hex_value n [] = if ltb n 18446744073709551616 then some n else none
hex_value n (c ∷ cs) = elim (hex_digit c) [ none ↦ none | some d ↦ hex_value (n * 16 + d) cs ]

unfoldable pub parse_hex : Bytes → Option ℕ
parse_hex [] = none
parse_hex (c ∷ cs) = hex_value 0 (c ∷ cs)

-- strings.TrimPrefix(v, "0x")
unfoldable pub trim_0x : Bytes → Bytes
trim_0x v = elim (cut_prefix (codes "0x") v) [ none ↦ v | some rest ↦ rest ]

unfoldable pub base_of : Bytes → Option ℕ
base_of [] = some wdt_base
base_of (c ∷ cs) = parse_hex (trim_0x (c ∷ cs))

unfoldable pub arm_at : System → Bytes → Bool → Tablet → Option ℕ → Step ArmError
arm_at s file dry t none = fails bad_base t
arm_at s file dry t (some base) =
    if s.opens file (not dry)
    then if s.maps file base then arm_mapping s file base dry t else fails not_mapped t
    else fails no_memory t

-- ArmNibble
unfoldable pub arm_nibble : System → Bool → Tablet → Step ArmError
arm_nibble s dry t =
    arm_at s (env_or s (codes "DC1_MEMDEV") (codes "/dev/mem")) dry t
      (base_of (s.env (codes "DC1_MEMBASE")))
