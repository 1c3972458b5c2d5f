-- ===== src/SystemInit/Lease.antt =====
-- The watchdog petter of systeminit.go: when it pets, and that it stops for good.
use dc_1_pmos.Base.{
  ℕ, zero, suc, ◌≡◌, refl, sym, subst, Bool, true, false, not, [], ◌∷◌, Option, none, some, inl,
  inr, All, All-append, Bool-cases,
}
use dc_1_pmos.SystemInit.Decide.{lease_fresh}
use dc_1_pmos.SystemInit.Ops.{
  FileInfo, Message, petting, Event, said, opened_write, checked, armed, asked_time, slept, petted,
  closed, Log, Machine, Run, ◌>>=◌, ◌>>◌, open_write,
}
use dc_1_pmos.SystemInit.Rescue.{
  lease_path, deadman_path, Config, Ending, running, exited, switched,
}
use dc_1_pmos.SystemInit.Watchdog.{
  watchdog_path, close, open_watchdog, mtime_of, is_there, lease_holds, lease_ended, report_arm,
  park, report_pet, pet_once, stop_petting, pet_or_stop, pet_loop, after_loop, with_watchdog,
  petter,
}
use dc_1_pmos.SystemInit.Emits.{
  Emits, Emits-bind, Emits-then, Emits-return, Emits-if, Emits-one, emitted, GuardedBy,
  keeps_guards, say-Emits, sleep-Emits,
}

abbrev pub IsUnarmed : Event → Type 0
IsUnarmed (armed r) = ⊥
IsUnarmed _ = Unit

-- What the petter has just seen when it pets: no deadman, or a lease that is fresh.
pub data MayPet : Log → Type 0 where
  no_deadman : (log : Log) → MayPet (checked deadman_path none ∷ log)
  leased :
      (deadman : FileInfo) (lease : Option FileInfo) (t : Option ℕ) (log : Log)
      → lease_fresh (is_there lease) (mtime_of lease) t ≡ true
      → MayPet (asked_time t ∷ checked lease_path lease ∷ checked deadman_path (some deadman) ∷ log)

abbrev pub PetGuard : Event → Log → Type 0
PetGuard (petted r) log = MayPet log × All IsUnarmed log
PetGuard _ log = Unit

abbrev IsUnpetted : Event → Type 0
IsUnpetted (petted r) = ⊥
IsUnpetted _ = Unit

free : (e : Event) (log : Log) → IsUnpetted e → PetGuard e log
free (petted r) log h = absurd h
free _ log h = tt

-- A log that holds its guards and has armed nothing.
abbrev Fit : Log → Type 0
Fit log = All IsUnarmed log × GuardedBy PetGuard log

not-false : (b : Bool) → not b ≡ false → b ≡ true
not-false true h = refl
not-false false h = cc

module _ (o : Machine) where
  Fit-then {ℓ} :
      {A : Type ℓ} (r : Run A) (log : Log)
      → Emits IsUnpetted r
      → Emits IsUnarmed r
      → Fit log
      → Fit (r log).1
  Fit-then r log pets arms (u, g) =
      let (new, e, all) = emitted r arms log in
      (
        subst (All IsUnarmed) (sym e) (All-append IsUnarmed new log all u),
        keeps_guards free r log pets g,
      )

  open_watchdog-Emits :
      (P : Event → Type 0)
      → ((r : Bool) → P (opened_write watchdog_path r))
      → P (slept 1)
      → (tries : ℕ) → Emits P (open_watchdog o tries)
  unfolding open_watchdog
  open_watchdog-Emits P p q zero = Emits-return P false
  open_watchdog-Emits P p q (suc tries) =
      Emits-bind P _ _
        (Emits-one P (open_write o watchdog_path)
          (λ log. opened_write watchdog_path (o.open_write log watchdog_path)) (λ log. refl)
          (λ log. p (o.open_write log watchdog_path)))
        (λ r.
          Emits-if P r _ _ (Emits-return P true)
            (Emits-then P _ _ (sleep-Emits P 1 q) (open_watchdog-Emits P p q tries)))

  park-IsUnpetted : (c : Config) (rounds : ℕ) → Emits IsUnpetted (park o c rounds)
  unfolding park
  park-IsUnpetted c zero = Emits-return IsUnpetted _
  park-IsUnpetted c (suc rounds) =
      Emits-then IsUnpetted _ _ (sleep-Emits IsUnpetted 3600 tt)
        (Emits-if IsUnpetted c.once _ _ (Emits-return IsUnpetted _) (park-IsUnpetted c rounds))

  report_arm-IsUnpetted : (r : Bool) → Emits IsUnpetted (report_arm o r)
  unfolding report_arm
  report_arm-IsUnpetted true = Emits-return IsUnpetted tt
  report_arm-IsUnpetted false = say-Emits IsUnpetted _ tt

  stop_petting-IsUnpetted : (c : Config) (rounds : ℕ) → Emits IsUnpetted (stop_petting o c rounds)
  unfolding stop_petting
  stop_petting-IsUnpetted c rounds = Emits-then IsUnpetted _ _ (say-Emits IsUnpetted _ tt) (
      Emits-bind IsUnpetted _ _
        (Emits-one IsUnpetted _ (λ log. armed (o.arm_fastboot log)) (λ log. refl) (λ log. tt))
        (λ r. Emits-then IsUnpetted _ _ (report_arm-IsUnpetted r) (park-IsUnpetted c rounds)))

  report_pet-Emits :
      (P : Event → Type 0) → ((m : Message) → P (said m)) → (r : Bool) → Emits P (report_pet o r)
  unfolding report_pet
  report_pet-Emits P p true = Emits-return P tt
  report_pet-Emits P p false = say-Emits P _ (p _)

  lease_ended-MayPet :
      (deadman : Option FileInfo) (log : Log)
      → All IsUnarmed log
      → GuardedBy PetGuard log
      → ((lease_ended o deadman (checked deadman_path deadman ∷ log)).0 ≡ false
          → MayPet (lease_ended o deadman (checked deadman_path deadman ∷ log)).1)
        × Fit (lease_ended o deadman (checked deadman_path deadman ∷ log)).1
  unfolding lease_ended lease_holds ◌>>=◌
  lease_ended-MayPet none log u g = (λ h. no_deadman log, ((tt, u), (tt, g)))
  lease_ended-MayPet (some f) log u g =
      (λ h. leased f _ _ log (not-false _ h), ((tt, (tt, (tt, u))), (tt, (tt, (tt, g)))))

  -- a run that keeps the guards wherever nothing is armed
  abbrev Keeps : Run Ending → Type 0
  Keeps r = (log : Log) → Fit log → GuardedBy PetGuard (r log).1

  pet_once-Keeps :
      (c : Config) (later : Run Ending) (log : Log)
      → MayPet log
      → Keeps later
      → Fit log
      → GuardedBy PetGuard (pet_once o c later log).1
  unfolding pet_once ◌>>=◌ ◌>>◌
  pet_once-Keeps c later log may keeps (u, g) =
      let r = o.pet log in
      let fit1 : Fit (petted r ∷ log) = ((tt, u), ((may, u), g)) in
      let fit2 =
        Fit-then (report_pet o r) (petted r ∷ log) (report_pet-Emits IsUnpetted (λ m. tt) r)
          (report_pet-Emits IsUnarmed (λ m. tt) r) fit1 in
      let log2 : Log = (report_pet o r (petted r ∷ log)).1 in
      elim (Bool-cases c.once) [
        | inl once ↦ rw once (fit2.1)
        | inr on ↦ rw on (keeps (slept 10 ∷ log2) ((tt, fit2.0), (tt, fit2.1)))
      ]

  pet_or_stop-Keeps :
      (c : Config) (rounds : ℕ) (later : Run Ending) (ended : Bool) (log : Log)
      → (ended ≡ false → MayPet log)
      → Keeps later
      → Fit log
      → GuardedBy PetGuard (pet_or_stop o c rounds later ended log).1
  unfolding pet_or_stop
  pet_or_stop-Keeps c rounds later true log may keeps fit =
      keeps_guards free (stop_petting o c rounds) log (stop_petting-IsUnpetted c rounds) fit.1
  pet_or_stop-Keeps c rounds later false log may keeps fit =
      pet_once-Keeps c later log (may refl) keeps fit

  pet_loop-Keeps : (c : Config) (rounds : ℕ) → Keeps (pet_loop o c rounds)
  unfolding pet_loop ◌>>=◌
  pet_loop-Keeps c zero log fit = fit.1
  pet_loop-Keeps c (suc rounds) log (u, g) =
      let d = o.stat log deadman_path in
      let (may, fit) = lease_ended-MayPet d log u g in
      pet_or_stop-Keeps c rounds (pet_loop o c rounds) _ _ may (pet_loop-Keeps c rounds) fit

  after_loop-IsUnpetted : (e : Ending) → Emits IsUnpetted (after_loop o e)
  unfolding after_loop
  after_loop-IsUnpetted running = Emits-return IsUnpetted _
  after_loop-IsUnpetted switched =
      Emits-then IsUnpetted _ _
        (Emits-one IsUnpetted close (λ log. closed true) (λ log. refl) (λ log. tt))
        (Emits-return IsUnpetted _)
  after_loop-IsUnpetted (exited n) =
      Emits-then IsUnpetted _ _
        (Emits-one IsUnpetted close (λ log. closed true) (λ log. refl) (λ log. tt))
        (Emits-return IsUnpetted _)

  with_watchdog-Keeps : (c : Config) (rounds : ℕ) (r : Bool) → Keeps (with_watchdog o c rounds r)
  unfolding with_watchdog ◌>>=◌ ◌>>◌
  with_watchdog-Keeps c rounds false log (u, g) = (tt, g)
  with_watchdog-Keeps c rounds true log (u, g) =
      let step = pet_loop o c rounds (said petting ∷ log) in
      keeps_guards free (after_loop o step.0) step.1 (after_loop-IsUnpetted step.0)
        (pet_loop-Keeps c rounds (said petting ∷ log) ((tt, u), (tt, g)))

  -- Whatever the machine answers and however often its loop goes round, each time that petter pets, it has
  -- just found no deadman, or found the deadman and a fresh lease, and it has never armed fastboot before:
  -- once it has, it does not pet again.
  pub petter-GuardedBy : (c : Config) (rounds : ℕ) → GuardedBy PetGuard (petter o c rounds []).1
  unfolding petter ◌>>=◌
  petter-GuardedBy c rounds =
      let fit =
        Fit-then (open_watchdog o 10) [] (open_watchdog-Emits IsUnpetted (λ r. tt) tt 10)
          (open_watchdog-Emits IsUnarmed (λ r. tt) tt 10) (tt, tt) in
      with_watchdog-Keeps c rounds (open_watchdog o 10 []).0 (open_watchdog o 10 []).1 fit
