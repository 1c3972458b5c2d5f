-- ===== src/SystemInit/Decide.antt =====
-- The decisions of installer/gotools/internal/systeminit/decide.go.
use Prim.Native.Nat.{bit_and}
use dc_1_pmos.Base.{
  ℕ, ◌+◌, ◌-◌, ◌*◌, Bool, true, false, not, ◌&&◌, ◌||◌, List, [], ◌∷◌, ◌++◌, Option, none, some,
  ltb, leb, ◌==◌, if◌then◌else◌, Bytes, codes, bytes_equal, length, get_or, take, drop, Result, ok,
  err, word32,
}

abbrev pub log_prefix : Bytes
log_prefix = codes "[dc1-boot] "

abbrev pub msg_max : ℕ
msg_max = 512 - 16

-- Line
unfoldable pub line : Bytes → Bytes
line msg =
    let kept = if ltb msg_max (length msg) then take msg_max msg else msg in
    log_prefix ++ (kept ++ codes "\n")

abbrev pub lease_seconds : ℕ
lease_seconds = 1800

-- LeaseFresh, on nanoseconds; the zero time is `none`.
unfoldable pub lease_fresh : Bool → ℕ → Option ℕ → Bool
lease_fresh false mtime now = false
lease_fresh true mtime none = true
lease_fresh true mtime (some now) =
    if ltb now mtime then true else leb (now - mtime) (lease_seconds * 1000000000)

abbrev pub root_fs_type : Bytes
root_fs_type = codes "ext4"

abbrev pub root_label : Bytes
root_label = codes "jagar-root"

pub record Candidate : Type 0 where
  pub device : Bytes
  pub fs_type : Bytes
  pub label : Bytes

pub data RootError : Type 0 where
  ambiguous none_matches : ℕ → RootError
  no_partition : RootError
  other_type : Candidate → RootError
  other_label : Candidate → RootError

-- the test of the loop
unfoldable pub is_root : Candidate → Bool
is_root c = bytes_equal c.fs_type root_fs_type && bytes_equal c.label root_label

unfoldable pub matches : List Candidate → List Candidate
matches [] = []
matches (c ∷ cs) = let rest = matches cs in if is_root c then c ∷ rest else rest

-- the cases without a match
unfoldable pub refuse_root : List Candidate → RootError
refuse_root [] = no_partition
refuse_root (c ∷ []) = if bytes_equal c.fs_type root_fs_type then other_label c else other_type c
refuse_root cands = none_matches (length cands)

unfoldable pub choose_root : List Candidate → List Candidate → Result RootError Bytes
choose_root cands [] = err (refuse_root cands)
choose_root cands (c ∷ []) = ok c.device
choose_root cands found = err (ambiguous (length found))

unfoldable pub select_root : List Candidate → Result RootError Bytes
select_root cands = choose_root cands (matches cands)

abbrev pub superblock_size : ℕ
superblock_size = 1024

unfoldable pub word16_at : Bytes → ℕ → ℕ
word16_at b i = get_or b i 0 + 256 * get_or b (i + 1) 0

unfoldable pub word32_at : Bytes → ℕ → ℕ
word32_at b i = word32 (get_or b i 0) (get_or b (i + 1) 0) (get_or b (i + 2) 0) (get_or b (i + 3) 0)

-- the text before the first NUL, or all of it
unfoldable pub until_nul : Bytes → Bytes
until_nul [] = []
until_nul (b ∷ bs) = let rest = until_nul bs in if b == 0 then [] else b ∷ rest

unfoldable pub fs_type_of : ℕ → ℕ → Bytes
fs_type_of compat incompat =
    if not (bit_and incompat 192 == 0)
    then root_fs_type
    else if not (bit_and compat 4 == 0)
    then codes "ext3"
    else codes "ext2"

unfoldable pub probe_superblock : Bytes → Bytes × Bytes
probe_superblock sb =
    if ltb (length sb) superblock_size
    then ([], [])
    else if not (word16_at sb 56 == 61267)
    then ([], [])
    else (fs_type_of (word32_at sb 92) (word32_at sb 96), until_nul (take 16 (drop 120 sb)))

abbrev pub root_wait_seconds : ℕ
root_wait_seconds = 60

-- WaitingNotice: whether there is a notice at this second.
unfoldable pub waiting_notice : ℕ → Bool
waiting_notice second = second == 10 || (second == 30 || second == 50)

-- FsckAcceptable, of an exit code that is `none` where it is negative.
unfoldable pub fsck_acceptable : Option ℕ → Bool
fsck_acceptable none = false
fsck_acceptable (some rc) = leb rc 1

pub data GadgetStep : Type 0 where
  make_dir : Bytes → GadgetStep
  write_value make_link : Bytes → Bytes → GadgetStep

unfoldable pub gadget_steps : Bytes → List GadgetStep
gadget_steps g =
    write_value (g ++ codes "/idVendor") (codes "0x18d1\n")
    ∷ write_value (g ++ codes "/idProduct") (codes "0x4ee7\n")
    ∷ make_dir (g ++ codes "/strings/0x409")
    ∷ write_value (g ++ codes "/strings/0x409/manufacturer") (codes "daylight\n")
    ∷ write_value (g ++ codes "/strings/0x409/product") (codes "dc1-system\n")
    ∷ write_value (g ++ codes "/strings/0x409/serialnumber") (codes "dc1-system\n")
    ∷ make_dir (g ++ codes "/configs/c.1")
    ∷ make_dir (g ++ codes "/configs/c.1/strings/0x409")
    ∷ write_value (g ++ codes "/configs/c.1/strings/0x409/configuration") (codes "acm\n")
    ∷ make_dir (g ++ codes "/functions/acm.0")
    ∷ make_dir (g ++ codes "/functions/acm.1")
    ∷ make_link (g ++ codes "/configs/c.1/acm.0") (g ++ codes "/functions/acm.0")
    ∷ make_link (g ++ codes "/configs/c.1/acm.1") (g ++ codes "/functions/acm.1")
    ∷ []

abbrev pub udc_candidates : List Bytes
udc_candidates =
    codes "musb-hdrc.4.auto"
    ∷ codes "musb-hdrc.1.auto"
    ∷ codes "musb-hdrc.0.auto"
    ∷ codes "11201000.usb"
    ∷ codes "11200000.usb"
    ∷ []

abbrev pub fsck_paths : List Bytes
fsck_paths = codes "/sbin/e2fsck" ∷ codes "/usr/sbin/e2fsck" ∷ codes "/bin/e2fsck" ∷ []
