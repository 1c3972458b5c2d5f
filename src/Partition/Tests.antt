-- ===== src/Partition/Tests.antt =====
-- partition.go on a small sysfs.
use dc_1_pmos.Base.{◌≡◌, refl, [], ◌∷◌, ◌++◌, none, some, if◌then◌else◌, codes, bytes_equal, ok}
use dc_1_pmos.Std.Strings.{trim_right, trim_left, trim_space, split_lines, cut_prefix}
use dc_1_pmos.Std.Strconv.{pos, parse_int, parse_uint, digits_value}
use dc_1_pmos.Partition.{
  Sysfs, Resolved, Entry, inventory, named_entries, sort_entries, insert_entry, name_less,
  with_name, size_or_zero, min_userdata_sectors, int64_of, is_cr, has_line, has_part_name,
  first_part_name, part_name, has_name, matching, check_sectors, parse_size, resolve_match,
  resolve_named,
}
use dc_1_pmos.Partition.Unique.{IsTarget, resolve_named-IsTarget}
use dc_1_pmos.Partition.Listed.{resolve_named-inventory}

abbrev sysfs : Sysfs
sysfs = record {
  uevents =
      (codes "sdc1", some (codes "PARTNAME=misc\n"))
      ∷ (codes "sdc2", none)
      ∷ (codes "sdc63", some (codes "MAJOR=8\nPARTNAME=userdata\n"))
      ∷ [];
  size_file = λ dev. if bytes_equal dev (codes "sdc63") then some (codes "67108864\n") else none;
}

abbrev target : Resolved
target = record { device = codes "/dev/sdc63"; sectors = 67108864; bytes = pos 34359738368 }

resolves : resolve_named sysfs (codes "userdata") min_userdata_sectors ≡ ok target
unfolding resolve_named resolve_match matching has_name has_part_name has_line is_cr split_lines
    trim_right bytes_equal parse_size trim_space trim_left parse_int parse_uint digits_value
    check_sectors int64_of
resolves = refl

resolve_named-IsTarget_example : IsTarget sysfs (codes "userdata") min_userdata_sectors target
resolve_named-IsTarget_example =
    resolve_named-IsTarget sysfs (codes "userdata") min_userdata_sectors resolves

abbrev userdata_entry : Entry
userdata_entry = record {
  name = codes "userdata";
  device = codes "/dev/sdc63";
  sectors = pos 67108864;
}

abbrev first_entry : Entry
first_entry = record { name = codes "misc"; device = codes "/dev/sdc1"; sectors = pos 0 }

lists : inventory sysfs ≡ (first_entry ∷ []) ++ (userdata_entry ∷ [])
unfolding inventory named_entries sort_entries insert_entry name_less with_name part_name
    first_part_name split_lines trim_right is_cr cut_prefix size_or_zero trim_space trim_left
    parse_int parse_uint digits_value bytes_equal
lists = refl

resolve_named-inventory_example :
    (userdata_entry.device ≡ target.device) × (userdata_entry.sectors ≡ pos target.sectors)
resolve_named-inventory_example =
    resolve_named-inventory sysfs min_userdata_sectors (first_entry ∷ []) userdata_entry [] lists
      resolves
