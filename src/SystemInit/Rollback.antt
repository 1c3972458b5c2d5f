-- ===== src/SystemInit/Rollback.antt =====
-- boot of systeminit.go takes the kernel's file systems back whenever it does not end in switch_root.
use dc_1_pmos.Base.{
  ℕ, zero, suc, ◌≤◌, ◌≡◌, ◌≢◌, refl, ap, ◌∙◌, Bool, true, false, ◌&&◌, [], ◌∷◌, ◌++◌, if◌then◌else◌,
  Bytes, codes, bytes_equal, inl, inr, All, arith, ◌==◌, Bool-cases, ok, err,
}
use dc_1_pmos.SystemInit.Ops.{
  Event, said, moved, checked, execed, switching, Log, Machine, Run, ◌>>=◌, ◌>>◌, Done, stat,
}
use dc_1_pmos.SystemInit.Rescue.{
  busybox_path, root_mount, kernel_mounts, watchdog, Config, switched, executable, spawn_helper,
  rescue,
}
use dc_1_pmos.SystemInit.Boot.{Tried, find_root, mount_root}
use dc_1_pmos.SystemInit.Handoff.{
  prepare, move_all, roll_back, report_exec, exec_init, exec_if, give_back, hand_off, after_mount,
  after_find, after_busybox, boot,
}
use dc_1_pmos.SystemInit.Emits.{
  Emits, Emits-bind, Emits-then, Emits-return, Emits-if, Emits-weaken, emitted, say-Emits,
  exec-Emits, stat-Emits,
}
use dc_1_pmos.SystemInit.Early.{
  IsEarly, spawn_helper-IsEarly, rescue-IsEarly, prepare-IsEarly, find_root-IsEarly,
  mount_root-IsEarly,
}

-- Whether, by its last move that succeeded, a mount is in the new root.
unfoldable pub is_away : Bytes → Log → Bool
is_away m [] = false
is_away m (moved old new true ∷ log) =
    let earlier = is_away m log in
    if bytes_equal old m && bytes_equal new (root_mount ++ m)
    then true
    else if bytes_equal old (root_mount ++ m) && bytes_equal new m
    then false
    else earlier
is_away m (_ ∷ log) = is_away m log

-- How many of the kernel's file systems are away, in the order in which they are moved.
abbrev Away : Bool → Bool → Bool → Log → Type 0
Away dev proc sys log =
    (is_away (codes "/dev") log ≡ dev)
    × (is_away (codes "/proc") log ≡ proc)
    × (is_away (codes "/sys") log ≡ sys)

pub IsHome : Log → Type 0
IsHome log = All (λ (m : Bytes). is_away m log ≡ false) kernel_mounts

abbrev IsUnmoved : Event → Type 0
IsUnmoved (moved old new r) = ⊥
IsUnmoved _ = Unit

early-IsUnmoved : (e : Event) → IsEarly e → IsUnmoved e
early-IsUnmoved (moved old new r) h = h
early-IsUnmoved (execed path argv r) h = absurd h
early-IsUnmoved _ h = tt

cons-is_away :
    (m : Bytes) (e : Event) (log : Log) → IsUnmoved e → is_away m (e ∷ log) ≡ is_away m log
unfolding is_away
cons-is_away m (moved old new r) log h = absurd h
cons-is_away m _ log h = refl

append-is_away :
    (m : Bytes) (new log : Log) → All IsUnmoved new → is_away m (new ++ log) ≡ is_away m log
append-is_away m [] log h = refl
append-is_away m (e ∷ new) log h = cons-is_away m e (new ++ log) h.0 ∙ append-is_away m new log h.1

run-is_away {ℓ} :
    {A : Type ℓ} (m : Bytes) (r : Run A) (log : Log)
    → Emits IsUnmoved r
    → is_away m (r log).1 ≡ is_away m log
run-is_away m r log unmoved =
    let (new, e, all) = emitted r unmoved log in ap (is_away m) e ∙ append-is_away m new log all

run-Away {ℓ} :
    {A : Type ℓ} {d p s : Bool} (r : Run A) (log : Log)
    → Emits IsUnmoved r
    → Away d p s log
    → Away d p s (r log).1
run-Away r log unmoved (d, p, s) = (
  run-is_away (codes "/dev") r log unmoved ∙ d,
  run-is_away (codes "/proc") r log unmoved ∙ p,
  run-is_away (codes "/sys") r log unmoved ∙ s,
)

early-Away {ℓ} :
    {A : Type ℓ} {d p s : Bool} (r : Run A) (log : Log)
    → Emits IsEarly r
    → Away d p s log
    → Away d p s (r log).1
early-Away r log early = run-Away r log (Emits-weaken early-IsUnmoved r early)

module _ (o : Machine) where
  -- The machine takes every move back.
  abbrev MovesBack : Type 0
  MovesBack = (log : Log) (m : Bytes) → o.move_mount log (root_mount ++ m) m ≡ true

  -- what is away after so many moves
  AwayAfter : ℕ → Log → Type 0
  AwayAfter zero = Away false false false
  AwayAfter (suc zero) = Away true false false
  AwayAfter (suc (suc zero)) = Away true true false
  AwayAfter _ = Away true true true

  roll_back-IsHome :
      (count : ℕ) (log : Log)
      → count ≤ 3
      → MovesBack
      → AwayAfter count log
      → Away false false false (roll_back o count log).1
  unfolding roll_back AwayAfter ◌>>=◌ is_away bytes_equal
  roll_back-IsHome zero log small back away = away
  roll_back-IsHome (suc zero) log small back (d, p, s) = rw (back log (codes "/dev")) (refl, p, s)
  roll_back-IsHome (suc (suc zero)) log small back (d, p, s) =
      rw (back log (codes "/proc")) (roll_back-IsHome (suc zero) _ (omega arith) back (d, refl, s))
  roll_back-IsHome (suc (suc (suc zero))) log small back (d, p, s) =
      rw (back log (codes "/sys"))
        (roll_back-IsHome (suc (suc zero)) _ (omega arith) back (d, p, refl))
  roll_back-IsHome (suc (suc (suc (suc n)))) log small back away = absurd (omega arith)

  abbrev Counted : ℕ × Log → Type 0
  Counted step = (step.0 ≤ 3) × AwayAfter step.0 step.1

  move_third : (log : Log) → AwayAfter 2 log → Counted (move_all o (codes "/sys" ∷ []) 2 log)
  unfolding move_all AwayAfter ◌>>=◌ ◌>>◌ is_away bytes_equal
  move_third log (d, p, s) =
      elim (Bool-cases (o.move_mount log (codes "/sys") (root_mount ++ codes "/sys"))) [
        | inl r ↦ rw r (omega arith, (d, p, refl))
        | inr r ↦ rw r (omega arith, (d, p, s))
      ]

  move_second :
      (log : Log) → AwayAfter 1 log → Counted (move_all o (codes "/proc" ∷ codes "/sys" ∷ []) 1 log)
  unfolding move_all AwayAfter ◌>>=◌ ◌>>◌ is_away bytes_equal
  move_second log (d, p, s) =
      elim (Bool-cases (o.move_mount log (codes "/proc") (root_mount ++ codes "/proc"))) [
        | inl r ↦ rw r (move_third _ (d, refl, s))
        | inr r ↦ rw r (omega arith, (d, p, s))
      ]

  move_first : (log : Log) → AwayAfter 0 log → Counted (move_all o kernel_mounts 0 log)
  unfolding move_all AwayAfter ◌>>=◌ ◌>>◌ is_away bytes_equal
  move_first log (d, p, s) =
      elim (Bool-cases (o.move_mount log (codes "/dev") (root_mount ++ codes "/dev"))) [
        | inl r ↦ rw r (move_second _ (refl, p, s))
        | inr r ↦ rw r (omega arith, (d, p, s))
      ]

  run-AwayAfter {ℓ} :
      {A : Type ℓ} (count : ℕ) (r : Run A) (log : Log)
      → Emits IsUnmoved r
      → AwayAfter count log
      → AwayAfter count (r log).1
  unfolding AwayAfter
  run-AwayAfter zero r log unmoved away = run-Away r log unmoved away
  run-AwayAfter (suc zero) r log unmoved away = run-Away r log unmoved away
  run-AwayAfter (suc (suc zero)) r log unmoved away = run-Away r log unmoved away
  run-AwayAfter (suc (suc (suc n))) r log unmoved away = run-Away r log unmoved away

  report_exec-IsUnmoved : (r : Bool) → Emits IsUnmoved (report_exec o r)
  unfolding report_exec
  report_exec-IsUnmoved true = Emits-return IsUnmoved true
  report_exec-IsUnmoved false =
      Emits-then IsUnmoved _ _ (say-Emits IsUnmoved _ tt) (Emits-return IsUnmoved false)

  exec_if-IsUnmoved : (asked : ℕ) → Emits IsUnmoved (exec_if o asked)
  unfolding exec_if exec_init
  exec_if-IsUnmoved asked =
      Emits-if IsUnmoved (asked == 3) _ _
        (Emits-bind IsUnmoved _ _ (exec-Emits IsUnmoved o _ _ (λ r. tt)) report_exec-IsUnmoved)
        (Emits-return IsUnmoved false)

  module _ (c : Config) (passes : ℕ) where
    give_back-IsHome :
        (count : ℕ) (r : Bool) (log : Log)
        → MovesBack
        → Counted (count, log)
        → (give_back o c passes count r log).0 ≢ switched
        → Away false false false (give_back o c passes count r log).1
    unfolding give_back ◌>>◌
    give_back-IsHome count true log back away left = absurd (left refl)
    give_back-IsHome count false log back (small, away) left =
        early-Away (rescue o c passes _) _ (rescue-IsEarly o c passes _)
          (roll_back-IsHome count log small back away)

    hand_off-IsHome :
        (dev : Bytes) (log : Log)
        → MovesBack
        → Away false false false log
        → (hand_off o c passes dev log).0 ≢ switched
        → Away false false false (hand_off o c passes dev log).1
    unfolding hand_off ◌>>=◌ ◌>>◌
    hand_off-IsHome dev log back (d, p, s) left =
        let log1 : Log = said (switching dev) ∷ log in
        let step = move_all o kernel_mounts 0 log1 in
        let away : AwayAfter 0 log1 = unfold AwayAfter is_away in (d, p, s) in
        let (small, moves) = move_first log1 away in
        let counted : Counted (step.0, (exec_if o step.0 step.1).1) = (
          small,
          run-AwayAfter step.0 (exec_if o step.0) step.1 (exec_if-IsUnmoved step.0) moves,
        ) in
        give_back-IsHome step.0 (exec_if o step.0 step.1).0 (exec_if o step.0 step.1).1 back counted
          left

    after_mount-IsHome :
        (dev : Bytes) (r : Tried Done) (log : Log)
        → MovesBack
        → Away false false false log
        → (after_mount o c passes dev r log).0 ≢ switched
        → Away false false false (after_mount o c passes dev r log).1
    unfolding after_mount
    after_mount-IsHome dev (err why) log back home left =
        early-Away (rescue o c passes why) log (rescue-IsEarly o c passes why) home
    after_mount-IsHome dev (ok u) log back home left = hand_off-IsHome dev log back home left

    after_find-IsHome :
        (r : Tried Bytes) (log : Log)
        → MovesBack
        → Away false false false log
        → (after_find o c passes r log).0 ≢ switched
        → Away false false false (after_find o c passes r log).1
    unfolding after_find ◌>>=◌
    after_find-IsHome (err why) log back home left =
        early-Away (rescue o c passes why) log (rescue-IsEarly o c passes why) home
    after_find-IsHome (ok dev) log back home left =
        after_mount-IsHome dev (mount_root o dev log).0 (mount_root o dev log).1 back
          (early-Away (mount_root o dev) log (mount_root-IsEarly o dev) home) left

    after_busybox-IsHome :
        (r : Bool) (log : Log)
        → MovesBack
        → Away false false false log
        → (after_busybox o c passes r log).0 ≢ switched
        → Away false false false (after_busybox o c passes r log).1
    unfolding after_busybox ◌>>=◌
    after_busybox-IsHome false log back home left =
        early-Away (rescue o c passes _) log (rescue-IsEarly o c passes _) home
    after_busybox-IsHome true log back home left =
        after_find-IsHome (find_root o log).0 (find_root o log).1 back
          (early-Away (find_root o) log (find_root-IsEarly o) home) left

    -- On a machine that takes every move back, whatever else it answers, a boot that does not end in
    -- switch_root leaves none of /dev, /proc and /sys in the new root: by the last move of it that
    -- succeeded, each is in its place.
    pub boot-IsHome :
        ((log : Log) (m : Bytes) → o.move_mount log (root_mount ++ m) m ≡ true)
        → (boot o c passes []).0 ≢ switched
        → IsHome (boot o c passes []).1
    unfolding boot IsHome ◌>>=◌ ◌>>◌
    boot-IsHome back left =
        let log1 = (prepare o []).1 in
        let log2 = (spawn_helper o c watchdog log1).1 in
        let st = o.stat log2 busybox_path in
        let none_yet : Away false false false [] = unfold is_away in (refl, refl, refl) in
        let home1 = early-Away (prepare o) [] (prepare-IsEarly o) none_yet in
        let home2 =
          early-Away (spawn_helper o c watchdog) log1 (spawn_helper-IsEarly o c watchdog) home1 in
        let home3 =
          early-Away (stat o busybox_path) log2 (stat-Emits IsEarly o busybox_path (λ r. tt))
            home2 in
        let (d, p, s) =
          after_busybox-IsHome (executable st) (checked busybox_path st ∷ log2) back home3 left in
        (d, (p, (s, tt)))
