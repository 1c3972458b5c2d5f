-- ===== src/RebootFastboot/Steps.antt =====
-- What DisarmBCB and ArmNibble of rebootfastboot.go leave behind, branch by branch.
use dc_1_pmos.Base.{
  ℕ, suc, ◌+◌, ◌≡◌, refl, sym, ap, ◌∙◌, Bool, true, false, [], ◌∷◌, Option, none, some, Bytes,
  bytes_equal, bytes_equal_iff, length, take, leb, ◌==◌, Bool-cases, if_both, if_either, ==_iff,
  inl, inr, arith, zero,
}
use dc_1_pmos.RebootFastboot.{
  Tablet, System, BcbError, ArmError, Step, set_disk, set_word, clen, read_command, is_armed,
  check_clear, clear_bcb, disarm_command, disarm_read, disarm_bcb, with_fastboot, nibble,
  arm_stored, arm_word, arm_mapping, arm_at, boot_mode_fastboot, wdt_non_rst2,
}

-- the command in the contents of the misc partition
unfoldable pub command_in : Bytes → Bytes
command_in content = take (clen (take 32 content)) (take 32 content)

unfoldable pub diverts : Bytes → Bool
diverts content = is_armed (command_in content)

pub bytes_equal_refl : (b : Bytes) → bytes_equal b b ≡ true
bytes_equal_refl b = (bytes_equal_iff b b).1 refl

pub set_disk_same : (dev content : Bytes) (t : Tablet) → (set_disk dev content t).disk dev ≡ content
unfolding set_disk
set_disk_same dev content t = rw (bytes_equal_refl dev)

pub set_disk_other :
    (dev other content : Bytes) (t : Tablet)
    → bytes_equal other dev ≡ false
    → (set_disk dev content t).disk other ≡ t.disk other
unfolding set_disk
set_disk_other dev other content t h = rw h

pub set_word_same :
    (file : Bytes) (address value : ℕ) (t : Tablet)
    → (set_word file address value t).word file address ≡ value
unfolding set_word
set_word_same file address value t =
    let here : (address == address) ≡ true = (==_iff address address).1 refl in
    rw (bytes_equal_refl file, here)

-- Where the step did not fail, the command of the device diverts LK no more.
unfoldable pub Clears : Bytes → Step BcbError → Type 0
Clears dev r = r.failed ≡ none → diverts (r.tablet.disk dev) ≡ false

pub read_command-some :
    (reads : Bool) (content : Bytes) {cmd : Bytes}
    → read_command reads content ≡ some cmd
    → cmd ≡ take 32 content
unfolding read_command
read_command-some false content h = cc
read_command-some true content h = elim (Bool-cases (leb 32 (length content))) [
  | inl whole ↦ let shape : some (take 32 content) ≡ some _ = (rw whole at h) in sym cc
  | inr short ↦ absurd (ground arith)
]

starts_with_zero : (content cs : Bytes) → 0 ∷ cs ≡ take 32 content → diverts content ≡ false
unfolding diverts command_in clen is_armed bytes_equal
starts_with_zero content cs h = rw (sym h)

check_clear-Clears :
    (dev content : Bytes) (t : Tablet) (r : Option Bytes)
    → t.disk dev ≡ content
    → ((cmd : Bytes) → r ≡ some cmd → cmd ≡ take 32 content)
    → Clears dev (check_clear t r)
unfolding Clears check_clear
check_clear-Clears dev content t none at_dev h failed = cc
check_clear-Clears dev content t (some []) at_dev h failed = cc
check_clear-Clears dev content t (some (suc c ∷ cs)) at_dev h failed = cc
check_clear-Clears dev content t (some (zero ∷ cs)) at_dev h failed =
    rw at_dev (starts_with_zero content cs (h (0 ∷ cs) refl))

clear_bcb-Clears :
    (s : System) (dev : Bytes) (t : Tablet) (w : Bytes × Bool) → Clears dev (clear_bcb s dev t w)
unfolding clear_bcb Clears
clear_bcb-Clears s dev t (content, false) = λ failed. cc
clear_bcb-Clears s dev t (content, true) =
    if_both (Clears dev) (s.syncs dev)
      (check_clear-Clears dev content (set_disk dev content t) _ (set_disk_same dev content t)
        (λ cmd. read_command-some (s.reads_again dev) content))
      (λ failed. cc)

disarm_command-Clears :
    (s : System) (dev : Bytes) (t : Tablet) (armed : Bool)
    → diverts (t.disk dev) ≡ armed
    → Clears dev (disarm_command s dev false t armed)
unfolding disarm_command Clears
disarm_command-Clears s dev t false h = λ failed. h
disarm_command-Clears s dev t true h = clear_bcb-Clears s dev t _

disarm_read-Clears :
    (s : System) (dev : Bytes) (t : Tablet) (r : Option Bytes)
    → ((cmd : Bytes) → r ≡ some cmd → cmd ≡ take 32 (t.disk dev))
    → Clears dev (disarm_read s dev false t r)
unfolding disarm_read Clears diverts command_in
disarm_read-Clears s dev t none h = λ failed. cc
disarm_read-Clears s dev t (some cmd) h =
    disarm_command-Clears s dev t _ (rw (h cmd refl, diverts, command_in))

pub disarm_bcb-Clears :
    (s : System) (dev : Bytes) (t : Tablet) → Clears dev (disarm_bcb s dev false t)
unfolding disarm_bcb Clears
disarm_bcb-Clears s dev t =
    if_both (Clears dev) (s.opens dev true)
      (disarm_read-Clears s dev t _ (λ cmd. read_command-some (s.reads dev) (t.disk dev)))
      (λ failed. cc)

-- Where the step did not fail, the word at the address has the nibble of fastboot, and the disks are
-- those of the tablet before.
unfoldable pub Arms : Bytes → ℕ → Tablet → Step ArmError → Type 0
Arms file address t r =
    r.failed ≡ none
    → (nibble (r.tablet.word file address) ≡ boot_mode_fastboot) × (r.tablet.disk ≡ t.disk)

arm_word-Arms :
    (s : System) (file : Bytes) (address old : ℕ) (t : Tablet)
    → Arms file address t (arm_word s file address false old t)
unfolding arm_word arm_stored Arms set_word
arm_word-Arms s file address old t =
    let got = s.takes old (with_fastboot old) in
    if_either (Arms file address t) (nibble got == boot_mode_fastboot)
      (λ taken failed. (
        ap nibble (set_word_same file address got t)
            ∙ (==_iff (nibble got) boot_mode_fastboot).0 taken,
        refl,
      ))
      (λ other failed. cc)

pub arm_at-Arms :
    (s : System) (file : Bytes) (t : Tablet) (base : ℕ)
    → Arms file (base + wdt_non_rst2) t (arm_at s file false t (some base))
unfolding arm_at arm_mapping Arms
arm_at-Arms s file t base =
    if_both (Arms file (base + wdt_non_rst2) t) (s.opens file true)
      (if_both (Arms file (base + wdt_non_rst2) t) (s.maps file base)
        (arm_word-Arms s file (base + wdt_non_rst2) (t.word file (base + wdt_non_rst2)) t)
        (λ failed. cc))
      (λ failed. cc)
