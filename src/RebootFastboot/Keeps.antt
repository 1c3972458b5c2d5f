-- ===== src/RebootFastboot/Keeps.antt =====
-- What Main of rebootfastboot.go leaves alone, whatever the system answers.
use dc_1_pmos.Base.{
  ℕ, zero, suc, ◌+◌, ◌/◌, ◌≡◌, refl, sym, ap, subst, Bool, true, false, not, ◌&&◌, [], ◌∷◌, Option,
  none, some, Bytes, bytes_equal, bytes_equal_iff, take, ◌==◌, ==_iff, Bool-cases, and_both,
  if_both, ◌⊎◌, inl, inr, arith,
}
use dc_1_pmos.RebootFastboot.{
  Tablet, System, BcbError, ArmError, Step, nibble, set_disk, set_word, with_fastboot, check_clear,
  clear_bcb, disarm_command, disarm_read, disarm_bcb, arm_stored, arm_word, arm_mapping, arm_at,
  boot_mode_fastboot, is_armed, wdt_non_rst2, clen,
}
use dc_1_pmos.RebootFastboot.Steps.{diverts, command_in, set_disk_other, read_command-some}

-- DisarmBCB and ArmNibble, for what holds of the tablet before
abbrev pub Same : {E : Type 0} → Tablet → Step E → Type 0
Same t r = r.tablet ≡ t

disarm_read_dry :
    (s : System) (dev : Bytes) (t : Tablet) (r : Option Bytes) → Same t (disarm_read s dev true t r)
unfolding disarm_read disarm_command
disarm_read_dry s dev t none = refl
disarm_read_dry s dev t (some cmd) = go (is_armed (take (clen cmd) cmd))
  where
    go : (armed : Bool) → Same t (disarm_command s dev true t armed)
    go true = refl
    go false = refl

pub disarm_bcb_dry : (s : System) (dev : Bytes) (t : Tablet) → Same t (disarm_bcb s dev true t)
unfolding disarm_bcb
disarm_bcb_dry s dev t = if_both (Same t) (s.opens dev false) (disarm_read_dry s dev t _) refl

pub arm_at_dry :
    (s : System) (file : Bytes) (t : Tablet) (base : Option ℕ) → Same t (arm_at s file true t base)
unfolding arm_at arm_mapping arm_word
arm_at_dry s file t none = refl
arm_at_dry s file t (some base) =
    if_both (Same t) (s.opens file false) (if_both (Same t) (s.maps file base) refl refl) refl

-- Across the two steps: where one changes a disk, it is the misc partition and its command diverted LK.
abbrev pub DiskKept : Bytes → Tablet → (Bytes → Bytes) → Type 0
DiskKept dev t disk = (d : Bytes) → (disk d ≡ t.disk d) ⊎ ((d ≡ dev) × (diverts (t.disk d) ≡ true))

set_disk-DiskKept :
    (dev content : Bytes) (t : Tablet)
    → diverts (t.disk dev) ≡ true
    → DiskKept dev t (set_disk dev content t).disk
set_disk-DiskKept dev content t armed d = elim (Bool-cases (bytes_equal d dev)) [
  | inr other ↦ inl (set_disk_other dev d content t other)
  | inl here ↦ let same : d ≡ dev = (bytes_equal_iff d dev).0 here in inr (same, rw same armed)
]

check_clear_tablet : (t : Tablet) (r : Option Bytes) → Same t (check_clear t r)
unfolding check_clear
check_clear_tablet t none = refl
check_clear_tablet t (some []) = refl
check_clear_tablet t (some (zero ∷ cs)) = refl
check_clear_tablet t (some (suc c ∷ cs)) = refl

clear_bcb_tablet :
    (s : System) (dev : Bytes) (t : Tablet) (w : Bytes × Bool)
    → (clear_bcb s dev t w).tablet ≡ set_disk dev w.0 t
unfolding clear_bcb
clear_bcb_tablet s dev t (content, false) = refl
clear_bcb_tablet s dev t (content, true) =
    if_both (Same (set_disk dev content t)) (s.syncs dev) (check_clear_tablet _ _) refl

disarm_command-DiskKept :
    (s : System) (dev : Bytes) (dry : Bool) (t : Tablet) (armed : Bool)
    → (armed ≡ true → diverts (t.disk dev) ≡ true)
    → DiskKept dev t (disarm_command s dev dry t armed).tablet.disk
unfolding disarm_command
disarm_command-DiskKept s dev dry t false h d = inl refl
disarm_command-DiskKept s dev true t true h d = inl refl
disarm_command-DiskKept s dev false t true h d =
    subst (λ (t' : Tablet). DiskKept dev t t'.disk) (sym (clear_bcb_tablet s dev t _))
      (set_disk-DiskKept dev _ t (h refl)) d

disarm_read-DiskKept :
    (s : System) (dev : Bytes) (dry : Bool) (t : Tablet) (r : Option Bytes)
    → ((cmd : Bytes) → r ≡ some cmd → cmd ≡ take 32 (t.disk dev))
    → DiskKept dev t (disarm_read s dev dry t r).tablet.disk
unfolding disarm_read diverts command_in
disarm_read-DiskKept s dev dry t none h = λ d. inl refl
disarm_read-DiskKept s dev dry t (some cmd) h =
    disarm_command-DiskKept s dev dry t _ (λ armed. rw (sym (h cmd refl)) armed)

pub disarm_bcb-DiskKept :
    (s : System) (dev : Bytes) (dry : Bool) (t : Tablet)
    → DiskKept dev t (disarm_bcb s dev dry t).tablet.disk
unfolding disarm_bcb
disarm_bcb-DiskKept s dev dry t =
    if_both (λ (r : Step BcbError). DiskKept dev t r.tablet.disk) (s.opens dev (not dry))
      (disarm_read-DiskKept s dev dry t _ (λ cmd. read_command-some (s.reads dev) (t.disk dev)))
      (λ d. inl refl)

-- the words of memory, across DisarmBCB
abbrev pub WordKept : Tablet → Step BcbError → Type 0
WordKept t r = r.tablet.word ≡ t.word

disarm_command-WordKept :
    (s : System) (dev : Bytes) (dry : Bool) (t : Tablet) (armed : Bool)
    → WordKept t (disarm_command s dev dry t armed)
unfolding disarm_command set_disk
disarm_command-WordKept s dev dry t false = refl
disarm_command-WordKept s dev true t true = refl
disarm_command-WordKept s dev false t true =
    ap (λ (t' : Tablet). t'.word) (clear_bcb_tablet s dev t _)

disarm_read-WordKept :
    (s : System) (dev : Bytes) (dry : Bool) (t : Tablet) (r : Option Bytes)
    → WordKept t (disarm_read s dev dry t r)
unfolding disarm_read
disarm_read-WordKept s dev dry t none = refl
disarm_read-WordKept s dev dry t (some cmd) = disarm_command-WordKept s dev dry t _

pub disarm_bcb-WordKept :
    (s : System) (dev : Bytes) (dry : Bool) (t : Tablet) → WordKept t (disarm_bcb s dev dry t)
unfolding disarm_bcb
disarm_bcb-WordKept s dev dry t =
    if_both (WordKept t) (s.opens dev (not dry)) (disarm_read-WordKept s dev dry t _) refl

-- no word of memory differs in more than its low four bits
unfoldable pub HighBitsKept : Tablet → Tablet → Type 0
HighBitsKept t t' =
    (file : Bytes) (address : ℕ) → t'.word file address / 16 ≡ t.word file address / 16

set_word-HighBitsKept :
    (file : Bytes) (address value : ℕ) (t : Tablet)
    → value / 16 ≡ t.word file address / 16
    → HighBitsKept t (set_word file address value t)
unfolding HighBitsKept set_word
set_word-HighBitsKept file address value t h f a =
    elim (Bool-cases (bytes_equal f file && a == address)) [
      | inr other ↦ rw other refl
      | inl here ↦
          let (same_file, same_address) = and_both here in
          rw (here, (bytes_equal_iff f file).0 same_file, (==_iff a address).0 same_address) h
    ]

arm_stored_tablet :
    (file : Bytes) (address old got : ℕ) (t : Tablet)
    → (arm_stored file address old got t).tablet ≡ set_word file address got t
unfolding arm_stored
arm_stored_tablet file address old got t =
    if_both (Same (set_word file address got t)) (nibble got == boot_mode_fastboot) refl refl

-- ArmNibble changes no disk.
abbrev pub ArmDisk : Tablet → Step ArmError → Type 0
ArmDisk t r = r.tablet.disk ≡ t.disk

arm_word-ArmDisk :
    (s : System) (file : Bytes) (address : ℕ) (dry : Bool) (old : ℕ) (t : Tablet)
    → ArmDisk t (arm_word s file address dry old t)
unfolding arm_word set_word
arm_word-ArmDisk s file address true old t = refl
arm_word-ArmDisk s file address false old t =
    ap (λ (t' : Tablet). t'.disk) (arm_stored_tablet file address old _ t)

pub arm_at-ArmDisk :
    (s : System) (file : Bytes) (dry : Bool) (t : Tablet) (base : Option ℕ)
    → ArmDisk t (arm_at s file dry t base)
unfolding arm_at arm_mapping
arm_at-ArmDisk s file dry t none = refl
arm_at-ArmDisk s file dry t (some base) =
    if_both (ArmDisk t) (s.opens file (not dry))
      (if_both (ArmDisk t) (s.maps file base) (arm_word-ArmDisk s file _ dry _ t) refl) refl

-- Across ArmNibble, on a register that takes what is stored.
abbrev pub ArmKept : Tablet → Step ArmError → Type 0
ArmKept t r = HighBitsKept t r.tablet

module _ (s : System) (takes_stored : (old value : ℕ) → s.takes old value ≡ value) where
  arm_word-ArmKept :
      (file : Bytes) (address : ℕ) (dry : Bool) (t : Tablet)
      → ArmKept t (arm_word s file address dry (t.word file address) t)
  unfolding arm_word with_fastboot HighBitsKept set_word
  arm_word-ArmKept file address true t = λ f a. refl
  arm_word-ArmKept file address false t =
      let old = t.word file address in
      let got = s.takes old (with_fastboot old) in
      let taken : got ≡ with_fastboot old = takes_stored old (with_fastboot old) in
      let kept =
        set_word-HighBitsKept file address got t (rw (taken, with_fastboot) (omega arith)) in
      subst (HighBitsKept t) (sym (arm_stored_tablet file address old got t)) kept

  pub arm_at-ArmKept :
      (file : Bytes) (dry : Bool) (t : Tablet) (base : Option ℕ)
      → ArmKept t (arm_at s file dry t base)
  unfolding arm_at arm_mapping HighBitsKept
  arm_at-ArmKept file dry t none = λ f a. refl
  arm_at-ArmKept file dry t (some base) =
      if_both (ArmKept t) (s.opens file (not dry))
        (if_both (ArmKept t) (s.maps file base) (arm_word-ArmKept file (base + wdt_non_rst2) dry t)
          (λ f a. refl))
        (λ f a. refl)
