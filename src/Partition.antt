-- ===== src/Partition.antt =====
-- installer/gotools/internal/partition/partition.go: the install target by its GPT name. The files of
-- sysfs are a parameter: the entries of its block class with their uevent, in the order of Glob, and the
-- size of an entry; `none` stands for a file that cannot be read.
pub mod Unique
pub mod Listed
mod Tests
use dc_1_pmos.Base.{
  ℕ, zero, suc, ◌*◌, ◌-◌, ◌%◌, Bool, true, false, ◌&&◌, ◌||◌, List, [], ◌∷◌, ◌++◌, Option, none,
  some, if◌then◌else◌, Bytes, codes, bytes_equal, length, ltb, ◌==◌, Result, ok, err, ◌>>=◌,
}
use dc_1_pmos.Std.Strings.{trim_right, trim_space, split_lines, cut_prefix}
use dc_1_pmos.Std.Strconv.{ℤ, pos, negsuc, parse_int}

pub record Sysfs : Type 0 where
  pub uevents : List (Bytes × Option Bytes)
  pub size_file : Bytes → Option Bytes

abbrev pub min_userdata_sectors : ℕ
min_userdata_sectors = 67108864

pub data ResolveError : Type 0 where
  not_unique : ℕ → ResolveError
  no_size bad_size : Bytes → ResolveError
  too_small : ℤ → ResolveError

pub record Resolved : Type 0 where
  pub device : Bytes
  pub sectors : ℕ
  pub bytes : ℤ

-- the int64 of a number
unfoldable pub int64_of : ℕ → ℤ
int64_of n =
    let m = n % 18446744073709551616 in
    if ltb m 9223372036854775808 then pos m else negsuc (18446744073709551615 - m)

unfoldable pub is_cr : ℕ → Bool
is_cr b = b == 13

-- hasPartName: the loop over the lines
unfoldable pub has_line : Bytes → List Bytes → Bool
has_line want [] = false
has_line want (l ∷ ls) = bytes_equal (trim_right is_cr l) want || has_line want ls

unfoldable pub has_part_name : Bytes → Bytes → Bool
has_part_name uevent name = has_line (codes "PARTNAME=" ++ name) (split_lines uevent)

-- partName: the loop over the lines
unfoldable pub first_part_name : List Bytes → Bytes
first_part_name [] = []
first_part_name (l ∷ ls) =
    let later = first_part_name ls in
    elim (cut_prefix (codes "PARTNAME=") (trim_right is_cr l)) [ none ↦ later | some v ↦ v ]

unfoldable pub part_name : Bytes → Bytes
part_name uevent = first_part_name (split_lines uevent)

unfoldable pub has_name : Bytes → Bytes × Option Bytes → Bool
has_name name (dev, none) = false
has_name name (dev, some uevent) = has_part_name uevent name

unfoldable pub matching : Bytes → List (Bytes × Option Bytes) → List Bytes
matching name [] = []
matching name (e ∷ es) = let rest = matching name es in if has_name name e then e.0 ∷ rest else rest

unfoldable pub check_sectors : ℕ → Bytes → ℤ → Result ResolveError Resolved
check_sectors floor dev (negsuc k) = err (too_small (negsuc k))
check_sectors floor dev (pos n) =
    if ltb n floor
    then err (too_small (pos n))
    else ok (record { device = codes "/dev/" ++ dev; sectors = n; bytes = int64_of (n * 512) })

unfoldable pub parse_size : Bytes → Option Bytes → Result ResolveError ℤ
parse_size dev none = err (no_size dev)
parse_size dev (some raw) = elim (parse_int (trim_space raw)) [
  | none ↦ err (bad_size dev)
  | some sectors ↦ ok sectors
]

unfoldable pub resolve_match : Sysfs → ℕ → List Bytes → Result ResolveError Resolved
resolve_match sys floor (dev ∷ []) = parse_size dev (sys.size_file dev) >>= check_sectors floor dev
resolve_match sys floor found = err (not_unique (length found))

-- resolveNamed
unfoldable pub resolve_named : Sysfs → Bytes → ℕ → Result ResolveError Resolved
resolve_named sys name floor = resolve_match sys floor (matching name sys.uevents)

unfoldable pub resolve_userdata : Sysfs → Result ResolveError Resolved
resolve_userdata sys = resolve_named sys (codes "userdata") min_userdata_sectors

pub record Entry : Type 0 where
  pub name : Bytes
  pub device : Bytes
  pub sectors : ℤ

-- the size of an entry, or 0
unfoldable pub size_or_zero : Option Bytes → ℤ
size_or_zero none = pos 0
size_or_zero (some raw) = elim (parse_int (trim_space raw)) [
  | none ↦ pos 0
  | some sectors ↦ sectors
]

unfoldable pub with_name : Sysfs → Bytes → Bytes → List Entry → List Entry
with_name sys dev name rest =
    if length name == 0
    then rest
    else record {
      name = name;
      device = codes "/dev/" ++ dev;
      sectors = size_or_zero (sys.size_file dev);
    }
      ∷ rest

-- Inventory: the loop over the entries
unfoldable pub named_entries : Sysfs → List (Bytes × Option Bytes) → List Entry
named_entries sys [] = []
named_entries sys ((dev, none) ∷ es) = named_entries sys es
named_entries sys ((dev, some uevent) ∷ es) =
    with_name sys dev (part_name uevent) (named_entries sys es)

-- the order of Go's strings
unfoldable pub name_less : Bytes → Bytes → Bool
name_less xs [] = false
name_less [] (b ∷ bs) = true
name_less (a ∷ xs) (b ∷ bs) = ltb a b || (a == b && name_less xs bs)

unfoldable pub insert_entry : Entry → List Entry → List Entry
insert_entry e [] = e ∷ []
insert_entry e (f ∷ fs) =
    let behind = insert_entry e fs in if name_less f.name e.name then f ∷ behind else e ∷ f ∷ fs

-- sort.Slice by name; entries of one name, whose order it leaves open, stay in the order of Glob
unfoldable pub sort_entries : List Entry → List Entry
sort_entries [] = []
sort_entries (e ∷ es) = insert_entry e (sort_entries es)

unfoldable pub inventory : Sysfs → List Entry
inventory sys = sort_entries (named_entries sys sys.uevents)
