-- ===== src/Partition/Unique.antt =====
-- What resolveNamed of partition.go has made sure of, and that Inventory names what it matches.
use dc_1_pmos.Base.{
  ℕ, ◌*◌, ◌≤◌, ◌<◌, ◌≡◌, refl, ap, sym, ◌∙◌, subst, Bool, true, false, ◌||◌, List, [], ◌∷◌, ◌++◌,
  Option, none, some, Bytes, codes, bytes_equal_iff, length, inl, inr, All, arith, ltb, ◌==◌,
  ==_iff, Bool-cases, Option-cases, Result, ok, ◌>>=◌, >>=-Passes,
}
use dc_1_pmos.Std.Strings.{trim_right, trim_space, split_lines, cut_prefix}
use dc_1_pmos.Std.Strconv.{ℤ, pos, negsuc, parse_int}
use dc_1_pmos.Partition.{
  Sysfs, ResolveError, Resolved, int64_of, is_cr, has_line, has_part_name, first_part_name,
  part_name, has_name, matching, check_sectors, parse_size, resolve_match, resolve_named,
}

-- One entry alone has the name, and its size is what was returned and no smaller than the floor.
pub record IsTarget (sys : Sysfs) (name : Bytes) (floor : ℕ) (r : Resolved) : Type 0 where
  pub before : List (Bytes × Option Bytes)
  pub dev : Bytes
  pub uevent : Bytes
  pub after : List (Bytes × Option Bytes)
  pub all_entries : sys.uevents ≡ before ++ ((dev, some uevent) ∷ after)
  pub named : has_part_name uevent name ≡ true
  pub none_before : All (λ (e : Bytes × Option Bytes). has_name name e ≡ false) before
  pub none_after : All (λ (e : Bytes × Option Bytes). has_name name e ≡ false) after
  pub its_device : r.device ≡ codes "/dev/" ++ dev
  pub raw : Bytes
  pub size_read : sys.size_file dev ≡ some raw
  pub size_parsed : parse_int (trim_space raw) ≡ some (pos r.sectors)
  pub above_floor : floor ≤ r.sectors

-- the entry that alone matches
pub record IsOnly (name : Bytes) (entries : List (Bytes × Option Bytes)) (dev : Bytes)
    : Type 0 where
  pub before : List (Bytes × Option Bytes)
  pub uevent : Bytes
  pub after : List (Bytes × Option Bytes)
  pub all_entries : entries ≡ before ++ ((dev, some uevent) ∷ after)
  pub named : has_part_name uevent name ≡ true
  pub none_before : All (λ (e : Bytes × Option Bytes). has_name name e ≡ false) before
  pub none_after : All (λ (e : Bytes × Option Bytes). has_name name e ≡ false) after

matching-none :
    (name : Bytes) (es : List (Bytes × Option Bytes))
    → matching name es ≡ []
    → All (λ (e : Bytes × Option Bytes). has_name name e ≡ false) es
unfolding matching
matching-none name [] h = tt
matching-none name (e ∷ es) h = elim (Bool-cases (has_name name e)) [
  | inl here ↦ absurd (ground arith)
  | inr other ↦ (other, matching-none name es (rw other at h))
]

has_name-uevent :
    (name : Bytes) (e : Bytes × Option Bytes)
    → has_name name e ≡ true
    → (uevent : Bytes) × (e ≡ (e.0, some uevent)) × (has_part_name uevent name ≡ true)
unfolding has_name
has_name-uevent name (dev, none) h = cc
has_name-uevent name (dev, some uevent) h = (uevent, refl, h)

pub matching-IsOnly :
    (name : Bytes) (es : List (Bytes × Option Bytes)) (dev : Bytes)
    → matching name es ≡ dev ∷ []
    → IsOnly name es dev
unfolding matching
matching-IsOnly name [] dev h = cc
matching-IsOnly name (e ∷ es) dev h = elim (Bool-cases (has_name name e)) [
  | inl here ↦
      let shape : e.0 ∷ matching name es ≡ dev ∷ [] = (rw here at h) in
      let same : e.0 ≡ dev = cc in
      let rest : matching name es ≡ [] = cc in
      let (uevent, is_e, named) = has_name-uevent name e here in
      record {
        before = [];
        uevent = uevent;
        after = es;
        all_entries =
            ap (λ (x : Bytes × Option Bytes). x ∷ es) is_e
            ∙ ap (λ (d : Bytes). (d, some uevent) ∷ es) same;
        named = named;
        none_before = tt;
        none_after = matching-none name es rest;
      }
  | inr other ↦
      let r = matching-IsOnly name es dev (rw other at h) in
      record {
        before = e ∷ r.before;
        uevent = r.uevent;
        after = r.after;
        all_entries = ap (λ (l : List (Bytes × Option Bytes)). e ∷ l) r.all_entries;
        named = r.named;
        none_before = (other, r.none_before);
        none_after = r.none_after;
      }
]

pub resolve_match-one :
    (sys : Sysfs) (floor : ℕ) (found : List Bytes) {r : Resolved}
    → resolve_match sys floor found ≡ ok r
    → (dev : Bytes) × (found ≡ dev ∷ [])
      × ((parse_size dev (sys.size_file dev) >>= check_sectors floor dev) ≡ ok r)
unfolding resolve_match
resolve_match-one sys floor [] h = cc
resolve_match-one sys floor (dev ∷ []) h = (dev, refl, h)
resolve_match-one sys floor (dev ∷ other ∷ found) h = cc

pub parse_size-ok :
    (dev : Bytes) (file : Option Bytes) {n : ℤ}
    → parse_size dev file ≡ ok n
    → (raw : Bytes) × (file ≡ some raw) × (parse_int (trim_space raw) ≡ some n)
unfolding parse_size
parse_size-ok dev none h = cc
parse_size-ok dev (some raw) {n} h = elim (Option-cases (parse_int (trim_space raw))) [
  | inl bad ↦ absurd (ground arith)
  | inr (x, e) ↦ let same : x ≡ n = ground arith in (raw, refl, e ∙ ap (λ (y : ℤ). some y) same)
]

pub check_sectors-ok :
    (floor : ℕ) (dev : Bytes) (n : ℤ) {r : Resolved}
    → check_sectors floor dev n ≡ ok r
    → (n ≡ pos r.sectors) × (floor ≤ r.sectors) × (r.device ≡ codes "/dev/" ++ dev)
unfolding check_sectors
check_sectors-ok floor dev (negsuc k) h = cc
check_sectors-ok floor dev (pos n) {r} h = elim (Bool-cases (ltb n floor)) [
  | inl small ↦ absurd (ground arith)
  | inr enough ↦
      let made : Resolved = record {
        device = codes "/dev/" ++ dev;
        sectors = n;
        bytes = int64_of (n * 512);
      } in
      let shape : ◌≡◌ {A = Result ResolveError Resolved} (ok made) (ok r) = (rw enough at h) in
      let same : made ≡ r = cc in
      (
        ap (λ (x : Resolved). pos x.sectors) same,
        subst (λ (x : Resolved). floor ≤ x.sectors) same (ground arith),
        ap (λ (x : Resolved). x.device) (sym same),
      )
]

-- Where resolveNamed returns a partition, one entry of sysfs alone has a readable uevent with a line
-- that names it so, the device is that entry's, and the size that its file gives is not below the floor
-- and is the one returned.
pub resolve_named-IsTarget :
    (sys : Sysfs) (name : Bytes) (floor : ℕ) {r : Resolved}
    → resolve_named sys name floor ≡ ok r
    → IsTarget sys name floor r
unfolding resolve_named
resolve_named-IsTarget sys name floor {r} h =
    let (dev, one, checked) = resolve_match-one sys floor (matching name sys.uevents) h in
    let only = matching-IsOnly name sys.uevents dev one in
    let (n, parsed, sized) =
      >>=-Passes (parse_size dev (sys.size_file dev)) (check_sectors floor dev) checked in
    let (raw, file, number) = parse_size-ok dev (sys.size_file dev) parsed in
    let (sectors, enough, device) = check_sectors-ok floor dev n sized in
    record {
      before = only.before;
      dev = dev;
      uevent = only.uevent;
      after = only.after;
      all_entries = only.all_entries;
      named = only.named;
      none_before = only.none_before;
      none_after = only.none_after;
      its_device = device;
      raw = raw;
      size_read = file;
      size_parsed = number ∙ ap (λ (x : ℤ). some x) sectors;
      above_floor = enough;
    }

cut_prefix-append : (p s : Bytes) {v : Bytes} → cut_prefix p s ≡ some v → s ≡ p ++ v
unfolding cut_prefix
cut_prefix-append [] s h = ground arith
cut_prefix-append (p ∷ ps) [] h = cc
cut_prefix-append (p ∷ ps) (c ∷ cs) h = elim (Bool-cases (p == c)) [
  | inl same ↦
      let head : p ≡ c = (==_iff p c).0 same in
      ap (λ (x : ℕ). x ∷ cs) (sym head)
      ∙ ap (λ (l : Bytes). p ∷ l) (cut_prefix-append ps cs (rw same at h))
  | inr other ↦ absurd (ground arith)
]

or_right : (b : Bool) {c : Bool} → c ≡ true → (b || c) ≡ true
or_right true h = refl
or_right false h = h

or_left : {b : Bool} (c : Bool) → b ≡ true → (b || c) ≡ true
or_left c h = rw h

named_line :
    (ls : List Bytes)
    → 0 < length (first_part_name ls)
    → has_line (codes "PARTNAME=" ++ first_part_name ls) ls ≡ true
unfolding first_part_name has_line
named_line [] h = absurd (omega arith)
named_line (l ∷ ls) h = elim (Option-cases (cut_prefix (codes "PARTNAME=") (trim_right is_cr l))) [
  | inl absent ↦
      let first : first_part_name (l ∷ ls) ≡ first_part_name ls = rw (absent, first_part_name) in
      let long : 0 < length (first_part_name ls) = subst (λ (v : Bytes). 0 < length v) first h in
      subst (λ (v : Bytes). has_line (codes "PARTNAME=" ++ v) (l ∷ ls) ≡ true) (sym first)
        (or_right _ (named_line ls long))
  | inr (v, here) ↦
      let first : first_part_name (l ∷ ls) ≡ v = rw (here, first_part_name) in
      let whole = cut_prefix-append (codes "PARTNAME=") (trim_right is_cr l) here in
      subst (λ (x : Bytes). has_line (codes "PARTNAME=" ++ x) (l ∷ ls) ≡ true) (sym first)
        (or_left _ ((bytes_equal_iff (trim_right is_cr l) (codes "PARTNAME=" ++ v)).1 whole))
]

-- A name that Inventory finds in a uevent is one that resolveNamed matches the same uevent by.
pub has_part_name-part_name :
    (uevent : Bytes)
    → 0 < length (part_name uevent)
    → has_part_name uevent (part_name uevent) ≡ true
unfolding has_part_name part_name
has_part_name-part_name uevent h = named_line (split_lines uevent) h
