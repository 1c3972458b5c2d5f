-- ===== src/Partition/Listed.antt =====
-- What Inventory of partition.go lists, against what resolveNamed returns.
use dc_1_pmos.Base.{
  ℕ, ◌<◌, ◌≡◌, refl, ap, sym, ◌∙◌, subst, true, List, [], ◌∷◌, ◌++◌, Option, none, some, Bytes,
  codes, length, inl, inr, All, arith, ◌==◌, Bool-cases, ok, >>=-Passes, if_either,
}
use dc_1_pmos.Std.Strings.{trim_space}
use dc_1_pmos.Std.Strconv.{ℤ, pos, parse_int}
use dc_1_pmos.Partition.{
  Sysfs, Resolved, Entry, has_part_name, part_name, has_name, matching, size_or_zero, with_name,
  named_entries, name_less, insert_entry, sort_entries, inventory, resolve_named, check_sectors,
  parse_size,
}
use dc_1_pmos.Partition.Unique.{
  resolve_match-one, parse_size-ok, check_sectors-ok, has_part_name-part_name,
}

-- an entry of the name is of the device
IsOf : Sysfs → Bytes → Bytes → Entry → Type 0
IsOf sys name dev e =
    e.name ≡ name
    → (e.device ≡ codes "/dev/" ++ dev) × (e.sectors ≡ size_or_zero (sys.size_file dev))

module _ (P : Entry → Type 0) where
  insert_entry-All : (e : Entry) (es : List Entry) → P e → All P es → All P (insert_entry e es)
  unfolding insert_entry
  insert_entry-All e [] p ps = (p, tt)
  insert_entry-All e (f ∷ fs) p ps =
      if_either (λ (l : List Entry). All P l) (name_less f.name e.name)
        (λ less. (ps.0, insert_entry-All e fs p ps.1)) (λ other. (p, ps))

  sort_entries-All : (es : List Entry) → All P es → All P (sort_entries es)
  unfolding sort_entries
  sort_entries-All [] ps = tt
  sort_entries-All (e ∷ es) ps =
      insert_entry-All e (sort_entries es) ps.0 (sort_entries-All es ps.1)

  All-at :
      (before : List Entry) (e : Entry) (after : List Entry) → All P (before ++ (e ∷ after)) → P e
  All-at [] e after ps = ps.0
  All-at (b ∷ before) e after ps = All-at before e after ps.1

  with_name-All :
      (sys : Sysfs) (dev name : Bytes) (rest : List Entry)
      → (0 < length name
          → P (record {
            name = name;
            device = codes "/dev/" ++ dev;
            sectors = size_or_zero (sys.size_file dev);
          }))
      → All P rest
      → All P (with_name sys dev name rest)
  unfolding with_name
  with_name-All sys dev name rest p ps =
      if_either (λ (l : List Entry). All P l) (length name == 0) (λ empty. ps)
        (λ filled. (p (ground arith), ps))

module _ (P : Bytes → Type 0) (name : Bytes) (e : Bytes × Option Bytes)
    (es : List (Bytes × Option Bytes)) where
  matching-behind : All P (matching name (e ∷ es)) → All P (matching name es)
  unfolding matching
  matching-behind ps = elim (Bool-cases (has_name name e)) [
    | inl here ↦ let qs : All P (e.0 ∷ matching name es) = (rw here at ps) in qs.1
    | inr other ↦ rw other at ps
  ]

  matching-here : has_name name e ≡ true → All P (matching name (e ∷ es)) → P e.0
  unfolding matching
  matching-here here ps = let qs : All P (e.0 ∷ matching name es) = (rw here at ps) in qs.0

named_entries-IsOf :
    (sys : Sysfs) (name dev : Bytes) (es : List (Bytes × Option Bytes))
    → All (λ (d : Bytes). d ≡ dev) (matching name es)
    → All (IsOf sys name dev) (named_entries sys es)
unfolding named_entries has_name IsOf
named_entries-IsOf sys name dev [] found = tt
named_entries-IsOf sys name dev ((d, none) ∷ es) found =
    named_entries-IsOf sys name dev es (matching-behind _ name _ es found)
named_entries-IsOf sys name dev ((d, some uevent) ∷ es) found =
    with_name-All (IsOf sys name dev) sys d (part_name uevent) (named_entries sys es)
      (λ long same.
        let here : has_name name (d, some uevent) ≡ true =
          subst (λ (n : Bytes). has_part_name uevent n ≡ true) same
            (has_part_name-part_name uevent long) in
        let it : d ≡ dev =
          matching-here (λ (x : Bytes). x ≡ dev) name (d, some uevent) es here found in
        (
          ap (λ (x : Bytes). codes "/dev/" ++ x) it,
          ap (λ (x : Bytes). size_or_zero (sys.size_file x)) it,
        ))
      (named_entries-IsOf sys name dev es (matching-behind _ name _ es found))

size_or_zero-parsed :
    (read : Option Bytes) {raw : Bytes} {n : ℤ}
    → read ≡ some raw
    → parse_int (trim_space raw) ≡ some n
    → size_or_zero read ≡ n
unfolding size_or_zero
size_or_zero-parsed read {raw} file number = rw (file, size_or_zero, number)

-- Where resolveNamed returns a partition, every entry that Inventory lists under that name is of that
-- partition: it has its device and its number of sectors.
pub resolve_named-inventory :
    (sys : Sysfs) (floor : ℕ) {r : Resolved} (before : List Entry) (e : Entry) (after : List Entry)
    → inventory sys ≡ before ++ (e ∷ after)
    → resolve_named sys e.name floor ≡ ok r
    → (e.device ≡ r.device) × (e.sectors ≡ pos r.sectors)
unfolding inventory resolve_named IsOf
resolve_named-inventory sys floor {r} before e after listed h =
    let name = e.name in
    let (dev, one, checked) = resolve_match-one sys floor (matching name sys.uevents) h in
    let (n, parsed, sized) =
      >>=-Passes (parse_size dev (sys.size_file dev)) (check_sectors floor dev) checked in
    let (raw, file, number) = parse_size-ok dev (sys.size_file dev) parsed in
    let (sectors, enough, device) = check_sectors-ok floor dev n sized in
    let all_of : All (IsOf sys name dev) (inventory sys) =
      sort_entries-All (IsOf sys name dev) (named_entries sys sys.uevents) (
        named_entries-IsOf sys name dev sys.uevents
          (subst (All (λ (d : Bytes). d ≡ dev)) (sym one) (refl, tt))) in
    let (its_device, its_sectors) =
      All-at (IsOf sys name dev) before e after (subst (All (IsOf sys name dev)) listed all_of)
        refl in
    (
      its_device ∙ sym device,
      its_sectors ∙ size_or_zero-parsed (sys.size_file dev) file number ∙ sectors,
    )
