-- ===== src/SystemInit/Quiet.antt =====
-- rescue of systeminit.go touches no storage.
use dc_1_pmos.Base.{
  ℕ, zero, suc, ◌≡◌, refl, Bool, true, false, List, [], ◌∷◌, Option, none, some, Bytes, codes, ◌⊎◌,
  inl, inr,
}
use dc_1_pmos.SystemInit.Decide.{
  GadgetStep, make_dir, write_value, make_link, gadget_steps, udc_candidates,
}
use dc_1_pmos.SystemInit.Ops.{
  Failure, Message, Event, said, made_dir, mounted, linked, wrote_sys, touched, spawned, waited,
  slept, Made, made, exists, failed, Machine, Run, say, spawn,
}
use dc_1_pmos.SystemInit.Rescue.{
  Role, Config, Ending, rescue_consoles, lease_path, deadman_path, role_argv, report_helper,
  spawn_helper, run_step, run_steps, bind_udc, after_root_dir, gadget, start_shell, still_there,
  offer_shell, offer_shells, reap, next_pass, rescue_loop, rescue,
}
use dc_1_pmos.SystemInit.Emits.{
  Emits, Emits-bind, Emits-then, Emits-return, Emits-if, say-Emits, sleep-Emits, mkdir-Emits,
  mount-Emits, symlink-Emits, write_sys-Emits, touch-Emits, spawn-Emits, wait-Emits,
}

-- The events of rescue: nothing but configfs is mounted, no mount is moved or undone, nothing is
-- probed, no program takes the place of the init, and no file is written but by WriteSys and Touch.
abbrev pub IsQuiet : Event → Type 0
IsQuiet (said m) = Unit
IsQuiet (made_dir path r) = Unit
IsQuiet (mounted source target fs_type options r) = fs_type ≡ codes "configfs"
IsQuiet (linked link target r) = Unit
IsQuiet (wrote_sys path value r) = Unit
IsQuiet (touched path r) = (path ≡ lease_path) ⊎ (path ≡ deadman_path)
IsQuiet (spawned argv marked tty r) = Unit
IsQuiet (waited pid block r) = Unit
IsQuiet (slept n) = Unit
IsQuiet _ = ⊥

say-IsQuiet : (m : Message) → Emits IsQuiet (say m)
say-IsQuiet m = say-Emits IsQuiet m tt

module _ (o : Machine) where
  spawn-IsQuiet :
      (argv : List Bytes) (marked : Bool) (tty : Bytes) → Emits IsQuiet (spawn o argv marked tty)
  spawn-IsQuiet argv marked tty = spawn-Emits IsQuiet o argv marked tty (λ r. tt)

  report_helper-IsQuiet : (role : Role) (r : Option ℕ) → Emits IsQuiet (report_helper o role r)
  unfolding report_helper
  report_helper-IsQuiet role none = say-IsQuiet _
  report_helper-IsQuiet role (some pid) = Emits-return IsQuiet tt

  pub spawn_helper-IsQuiet : (c : Config) (role : Role) → Emits IsQuiet (spawn_helper o c role)
  unfolding spawn_helper
  spawn_helper-IsQuiet c role =
      Emits-bind IsQuiet _ _ (spawn-IsQuiet (role_argv c role) true []) (report_helper-IsQuiet role)

  run_step-IsQuiet : (s : GadgetStep) → Emits IsQuiet (run_step o s)
  unfolding run_step
  run_step-IsQuiet (make_dir path) =
      Emits-bind IsQuiet _ _ (mkdir-Emits IsQuiet o path (λ r. tt)) (λ r. Emits-return IsQuiet tt)
  run_step-IsQuiet (write_value path value) =
      Emits-bind IsQuiet _ _ (write_sys-Emits IsQuiet o path value (λ r. tt))
        (λ r. Emits-return IsQuiet tt)
  run_step-IsQuiet (make_link path target) =
      Emits-bind IsQuiet _ _ (symlink-Emits IsQuiet o path target (λ r. tt))
        (λ r. Emits-return IsQuiet tt)

  run_steps-IsQuiet : (steps : List GadgetStep) → Emits IsQuiet (run_steps o steps)
  unfolding run_steps
  run_steps-IsQuiet [] = Emits-return IsQuiet tt
  run_steps-IsQuiet (s ∷ rest) =
      Emits-then IsQuiet _ _ (run_step-IsQuiet s) (run_steps-IsQuiet rest)

  bind_udc-IsQuiet : (udcs : List Bytes) → Emits IsQuiet (bind_udc o udcs)
  unfolding bind_udc
  bind_udc-IsQuiet [] = say-IsQuiet _
  bind_udc-IsQuiet (udc ∷ rest) =
      Emits-bind IsQuiet _ _ (write_sys-Emits IsQuiet o _ udc (λ r. tt))
        (λ bound. Emits-if IsQuiet bound _ _ (say-IsQuiet _) (bind_udc-IsQuiet rest))

  after_root_dir-IsQuiet : (r : Made) → Emits IsQuiet (after_root_dir o r)
  unfolding after_root_dir
  after_root_dir-IsQuiet failed = say-IsQuiet _
  after_root_dir-IsQuiet made =
      Emits-then IsQuiet _ _ (run_steps-IsQuiet (gadget_steps _)) (bind_udc-IsQuiet udc_candidates)
  after_root_dir-IsQuiet exists =
      Emits-then IsQuiet _ _ (run_steps-IsQuiet (gadget_steps _)) (bind_udc-IsQuiet udc_candidates)

  gadget-IsQuiet : Emits IsQuiet (gadget o)
  unfolding gadget
  gadget-IsQuiet = Emits-bind IsQuiet _ _ (mkdir-Emits IsQuiet o _ (λ r. tt)) after_root_dir-IsQuiet

  still_there-IsQuiet :
      (tty : Bytes) (kid : Option ℕ) (w : Option (ℕ × Option ℕ))
      → Emits IsQuiet (still_there o tty kid w)
  unfolding still_there start_shell
  still_there-IsQuiet tty kid (some (zero, rc)) = Emits-return IsQuiet kid
  still_there-IsQuiet tty kid (some (suc pid, rc)) = spawn-IsQuiet _ false tty
  still_there-IsQuiet tty kid none = spawn-IsQuiet _ false tty

  offer_shell-IsQuiet : (tty : Bytes) (kid : Option ℕ) → Emits IsQuiet (offer_shell o tty kid)
  unfolding offer_shell start_shell
  offer_shell-IsQuiet tty none = spawn-IsQuiet _ false tty
  offer_shell-IsQuiet tty (some pid) =
      Emits-bind IsQuiet _ _ (wait-Emits IsQuiet o (some pid) false (λ r. tt))
        (still_there-IsQuiet tty (some pid))

  offer_shells-IsQuiet :
      (ttys : List Bytes) (kids : List (Option ℕ)) → Emits IsQuiet (offer_shells o ttys kids)
  unfolding offer_shells
  offer_shells-IsQuiet [] kids = Emits-return IsQuiet []
  offer_shells-IsQuiet (tty ∷ ttys) [] = Emits-return IsQuiet []
  offer_shells-IsQuiet (tty ∷ ttys) (kid ∷ kids) =
      Emits-bind IsQuiet _ _ (offer_shell-IsQuiet tty kid) (λ k.
        Emits-bind IsQuiet _ _ (offer_shells-IsQuiet ttys kids)
          (λ ks. Emits-return IsQuiet (k ∷ ks)))

  reap-IsQuiet : (rounds : ℕ) → Emits IsQuiet (reap o rounds)
  unfolding reap
  reap-IsQuiet zero = Emits-return IsQuiet false
  reap-IsQuiet (suc rounds) =
      Emits-bind IsQuiet _ _ (wait-Emits IsQuiet o none false (λ r. tt))
        (λ w. Emits-if IsQuiet _ _ _ (Emits-return IsQuiet true) (reap-IsQuiet rounds))

  next_pass-IsQuiet :
      (c : Config) (later : Run Ending) (reaped : Bool)
      → Emits IsQuiet later
      → Emits IsQuiet (next_pass o c later reaped)
  unfolding next_pass
  next_pass-IsQuiet c later false q = Emits-return IsQuiet _
  next_pass-IsQuiet c later true q =
      Emits-if IsQuiet c.once _ _ (Emits-return IsQuiet _)
        (Emits-then IsQuiet _ _ (sleep-Emits IsQuiet 2 tt) q)

  rescue_loop-IsQuiet :
      (c : Config) (rounds passes : ℕ) (kids : List (Option ℕ))
      → Emits IsQuiet (rescue_loop o c rounds passes kids)
  unfolding rescue_loop
  rescue_loop-IsQuiet c rounds zero kids = Emits-return IsQuiet _
  rescue_loop-IsQuiet c rounds (suc passes) kids =
      Emits-bind IsQuiet _ _ (offer_shells-IsQuiet rescue_consoles kids) (λ kids'.
        Emits-bind IsQuiet _ _ (reap-IsQuiet rounds)
          (λ reaped. next_pass-IsQuiet c _ reaped (rescue_loop-IsQuiet c rounds passes kids')))

  -- rescue, however often its loop goes round and whatever the machine answers, mounts nothing but
  -- configfs, moves and undoes no mount, probes nothing, touches no file but the deadman and its lease,
  -- and never replaces the init.
  pub rescue-IsQuiet :
      (c : Config) (passes : ℕ) (why : Failure) → Emits IsQuiet (rescue o c passes why)
  unfolding rescue
  rescue-IsQuiet c passes why = Emits-then IsQuiet _ _ (say-IsQuiet _) (
      Emits-then IsQuiet _ _ (say-IsQuiet _) (
        Emits-bind IsQuiet _ _ (touch-Emits IsQuiet o lease_path (λ r. inl refl)) (λ r1.
          Emits-bind IsQuiet _ _ (touch-Emits IsQuiet o deadman_path (λ r. inr refl)) (λ r2.
            Emits-then IsQuiet _ _ (say-IsQuiet _) (
              Emits-bind IsQuiet _ _ (mkdir-Emits IsQuiet o _ (λ r. tt)) (λ r3.
                Emits-bind IsQuiet _ _ (mount-Emits IsQuiet o _ _ _ _ (λ r. refl)) (λ r4.
                  Emits-then IsQuiet _ _ gadget-IsQuiet (
                    Emits-then IsQuiet _ _ (spawn_helper-IsQuiet c _) (
                      Emits-then IsQuiet _ _ (spawn_helper-IsQuiet c _)
                        (rescue_loop-IsQuiet c passes passes _))))))))))
