-- ===== src/RebootFastboot/Misc.antt =====
-- What ResolveMisc of rebootfastboot.go has made sure of.
use dc_1_pmos.Base.{
  ℕ, ◌≤◌, ◌≡◌, refl, sym, ap, ◌∙◌, List, [], ◌∷◌, Option, none, some, Bytes, codes, ltb, Result, ok,
  Bool-cases, Option-cases, inl, inr, arith,
}
use dc_1_pmos.Std.Strings.{trim_space}
use dc_1_pmos.Std.Strconv.{parse_uint}
use dc_1_pmos.Partition.{Sysfs, matching}
use dc_1_pmos.Partition.Unique.{IsOnly, matching-IsOnly}
use dc_1_pmos.RebootFastboot.{
  MiscError, parse_uint64, join, check_misc, sized_misc, unique_misc, find_misc, misc_max_sectors,
}

-- One entry alone has a readable uevent that names it misc, its size file reads as a number of sectors
-- within the limit, and the path is that entry's.
pub record IsMisc (devdir : Bytes) (sys : Sysfs) (path : Bytes) : Type 0 where
  pub dev : Bytes
  pub only : IsOnly (codes "misc") sys.uevents dev
  pub its_path : path ≡ join devdir dev
  pub raw : Bytes
  pub size_read : sys.size_file dev ≡ some raw
  pub sectors : ℕ
  pub size_parsed : parse_uint (trim_space raw) ≡ some sectors
  pub small : sectors ≤ misc_max_sectors

parse_uint64-some : (s : Bytes) {n : ℕ} → parse_uint64 s ≡ some n → parse_uint s ≡ some n
unfolding parse_uint64
parse_uint64-some s {n} h = elim (Option-cases (parse_uint s)) [
  | inl bad ↦ absurd (ground arith)
  | inr (m, e) ↦ let same : m ≡ n = ground arith in e ∙ ap (λ (x : ℕ). some x) same
]

check_misc-ok :
    (devdir dev : Bytes) (number : Option ℕ) {path : Bytes}
    → check_misc devdir dev number ≡ ok path
    → (n : ℕ) × (number ≡ some n) × (n ≤ misc_max_sectors) × (path ≡ join devdir dev)
unfolding check_misc
check_misc-ok devdir dev none h = cc
check_misc-ok devdir dev (some n) {path} h = elim (Bool-cases (ltb misc_max_sectors n)) [
  | inl large ↦ absurd (ground arith)
  | inr small ↦
      let shape : ◌≡◌ {A = Result MiscError Bytes} (ok (join devdir dev)) (ok path) =
        (rw small at h) in
      (n, refl, ground arith, sym cc)
]

unique_misc-IsMisc :
    (devdir : Bytes) (sys : Sysfs) (found : List Bytes) {path : Bytes}
    → matching (codes "misc") sys.uevents ≡ found
    → unique_misc devdir sys found ≡ ok path
    → IsMisc devdir sys path
unfolding unique_misc sized_misc
unique_misc-IsMisc devdir sys [] m h = cc
unique_misc-IsMisc devdir sys (dev ∷ other ∷ found) m h = cc
unique_misc-IsMisc devdir sys (dev ∷ []) m h = elim (Option-cases (sys.size_file dev)) [
  | inl absent ↦ absurd (ground arith)
  | inr (raw, read) ↦
      let (n, number, small, path) =
        check_misc-ok devdir dev (parse_uint64 (trim_space raw)) (rw read at h) in
      record {
        dev = dev;
        only = matching-IsOnly (codes "misc") sys.uevents dev m;
        its_path = path;
        raw = raw;
        size_read = read;
        sectors = n;
        size_parsed = parse_uint64-some (trim_space raw) number;
        small = small;
      }
]

-- Where ResolveMisc returns a path, one entry of the block class alone has a readable uevent with a
-- line that names it misc, its size file reads as at most 32768 sectors, and the path is that
-- entry's in the directory of devices.
pub find_misc-IsMisc :
    (devdir : Bytes) (sys : Sysfs) {path : Bytes}
    → find_misc devdir (some sys) ≡ ok path
    → IsMisc devdir sys path
unfolding find_misc
find_misc-IsMisc devdir sys h = unique_misc-IsMisc devdir sys _ refl h
