-- ===== src/SystemInit/Emits.antt =====
-- What computations of the init add to the log: systeminit.go without its order of calls.
use dc_1_pmos.Base.{
  ℕ, ◌≡◌, refl, ap, sym, ◌∙◌, Bool, true, false, List, [], ◌∷◌, ◌++◌, append_assoc, Option,
  if◌then◌else◌, Bytes, All, All-append,
}
use dc_1_pmos.SystemInit.Decide.{Candidate}
use dc_1_pmos.SystemInit.Ops.{
  FileInfo, Message, Made, Event, said, made_dir, mounted, unmounted, moved, linked, wrote_sys,
  touched, checked, spawned, waited, execed, probed, slept, Log, Machine, Run, ◌>>=◌, ◌>>◌, return,
  say, sleep, mkdir, mount, unmount, move_mount, symlink, write_sys, touch, stat, spawn, wait, exec,
  probe_roots,
}

-- Every event that `r` adds satisfies `P`, and it takes none away.
unfoldable pub Emits {ℓ} : {A : Type ℓ} → (Event → Type 0) → Run A → Type 0
Emits P r = (log : Log) → (new : Log) × ((r log).1 ≡ new ++ log) × All P new

module _ {ℓ κ} {A : Type ℓ} {B : Type κ} (P : Event → Type 0) where
  pub Emits-bind :
      (first : Run A) (rest : A → Run B)
      → Emits P first
      → ((a : A) → Emits P (rest a))
      → Emits P (first >>= rest)
  unfolding Emits ◌>>=◌
  Emits-bind first rest f g log =
      let (new, e, all) = f log in
      let step = first log in
      let (new', e', all') = g step.0 step.1 in
      (
        new' ++ new,
        e' ∙ ap (λ (l : Log). new' ++ l) e ∙ sym (append_assoc new' new log),
        All-append P new' new all' all,
      )

  pub Emits-then :
      (first : Run A) (rest : Run B) → Emits P first → Emits P rest → Emits P (first >> rest)
  unfolding Emits ◌>>◌
  Emits-then first rest f g log =
      let (new, e, all) = f log in
      let (new', e', all') = g (first log).1 in
      (
        new' ++ new,
        e' ∙ ap (λ (l : Log). new' ++ l) e ∙ sym (append_assoc new' new log),
        All-append P new' new all' all,
      )

pub Emits-return {ℓ} : {A : Type ℓ} (P : Event → Type 0) (a : A) → Emits P (return a)
unfolding Emits
Emits-return P a log = ([], refl, tt)

pub Emits-if {ℓ} :
    {A : Type ℓ} (P : Event → Type 0) (b : Bool) (x y : Run A)
    → Emits P x
    → Emits P y
    → Emits P (if b then x else y)
Emits-if P true x y f g = f
Emits-if P false x y f g = g

-- a call that adds one event
pub Emits-one {ℓ} :
    {A : Type ℓ} (P : Event → Type 0) (r : Run A) (e : Log → Event)
    → ((log : Log) → (r log).1 ≡ e log ∷ log)
    → ((log : Log) → P (e log))
    → Emits P r
unfolding Emits
Emits-one P r e adds all log = (e log ∷ [], adds log, (all log, tt))

module _ (P : Event → Type 0) where
  pub say-Emits : (m : Message) → P (said m) → Emits P (say m)
  say-Emits m p = Emits-one P (say m) (λ log. said m) (λ log. refl) (λ log. p)

  pub sleep-Emits : (n : ℕ) → P (slept n) → Emits P (sleep n)
  sleep-Emits n p = Emits-one P (sleep n) (λ log. slept n) (λ log. refl) (λ log. p)

  module _ (o : Machine) where
    pub mkdir-Emits : (path : Bytes) → ((r : Made) → P (made_dir path r)) → Emits P (mkdir o path)
    mkdir-Emits path p =
        Emits-one P (mkdir o path) (λ log. made_dir path (o.mkdir log path)) (λ log. refl)
          (λ log. p (o.mkdir log path))

    pub mount-Emits :
        (source target fs_type options : Bytes)
        → ((r : Bool) → P (mounted source target fs_type options r))
        → Emits P (mount o source target fs_type options)
    mount-Emits source target fs_type options p =
        Emits-one P (mount o source target fs_type options)
          (λ log. mounted source target fs_type options (o.mount log source target fs_type options))
          (λ log. refl) (λ log. p (o.mount log source target fs_type options))

    pub unmount-Emits :
        (target : Bytes) → ((r : Bool) → P (unmounted target r)) → Emits P (unmount o target)
    unmount-Emits target p =
        Emits-one P (unmount o target) (λ log. unmounted target (o.unmount log target))
          (λ log. refl) (λ log. p (o.unmount log target))

    pub move_mount-Emits :
        (old new : Bytes) → ((r : Bool) → P (moved old new r)) → Emits P (move_mount o old new)
    move_mount-Emits old new p =
        Emits-one P (move_mount o old new) (λ log. moved old new (o.move_mount log old new))
          (λ log. refl) (λ log. p (o.move_mount log old new))

    pub symlink-Emits :
        (link target : Bytes)
        → ((r : Bool) → P (linked link target r))
        → Emits P (symlink o link target)
    symlink-Emits link target p =
        Emits-one P (symlink o link target) (λ log. linked link target (o.symlink log link target))
          (λ log. refl) (λ log. p (o.symlink log link target))

    pub write_sys-Emits :
        (path value : Bytes)
        → ((r : Bool) → P (wrote_sys path value r))
        → Emits P (write_sys o path value)
    write_sys-Emits path value p =
        Emits-one P (write_sys o path value)
          (λ log. wrote_sys path value (o.write_sys log path value)) (λ log. refl)
          (λ log. p (o.write_sys log path value))

    pub touch-Emits : (path : Bytes) → ((r : Bool) → P (touched path r)) → Emits P (touch o path)
    touch-Emits path p =
        Emits-one P (touch o path) (λ log. touched path (o.touch log path)) (λ log. refl)
          (λ log. p (o.touch log path))

    pub stat-Emits :
        (path : Bytes) → ((r : Option FileInfo) → P (checked path r)) → Emits P (stat o path)
    stat-Emits path p =
        Emits-one P (stat o path) (λ log. checked path (o.stat log path)) (λ log. refl)
          (λ log. p (o.stat log path))

    pub exec-Emits :
        (path : Bytes) (argv : List Bytes)
        → ((r : Bool) → P (execed path argv r))
        → Emits P (exec o path argv)
    exec-Emits path argv p =
        Emits-one P (exec o path argv) (λ log. execed path argv (o.exec log path argv))
          (λ log. refl) (λ log. p (o.exec log path argv))

    pub wait-Emits :
        (pid : Option ℕ) (block : Bool)
        → ((r : Option (ℕ × Option ℕ)) → P (waited pid block r))
        → Emits P (wait o pid block)
    wait-Emits pid block p =
        Emits-one P (wait o pid block) (λ log. waited pid block (o.wait log pid block))
          (λ log. refl) (λ log. p (o.wait log pid block))

    pub spawn-Emits :
        (argv : List Bytes) (marked : Bool) (tty : Bytes)
        → ((r : Option ℕ) → P (spawned argv marked tty r))
        → Emits P (spawn o argv marked tty)
    spawn-Emits argv marked tty p =
        Emits-one P (spawn o argv marked tty)
          (λ log. spawned argv marked tty (o.spawn log argv tty)) (λ log. refl)
          (λ log. p (o.spawn log argv tty))

    pub probe_roots-Emits : ((r : Option (List Candidate)) → P (probed r)) → Emits P (probe_roots o)
    probe_roots-Emits p =
        Emits-one P (probe_roots o) (λ log. probed (o.probe_roots log)) (λ log. refl)
          (λ log. p (o.probe_roots log))

All-weaken :
    {P Q : Event → Type 0} → ((e : Event) → P e → Q e) → (log : Log) → All P log → All Q log
All-weaken f [] h = tt
All-weaken f (e ∷ log) h = (f e h.0, All-weaken f log h.1)

pub Emits-weaken {ℓ} :
    {A : Type ℓ} {P Q : Event → Type 0}
    → ((e : Event) → P e → Q e)
    → (r : Run A) → Emits P r
    → Emits Q r
unfolding Emits
Emits-weaken f r p log = let (new, e, all) = p log in (new, e, All-weaken f new all)

pub emitted {ℓ} :
    {A : Type ℓ} {P : Event → Type 0} (r : Run A)
    → Emits P r
    → (log : Log) → (new : Log) × ((r log).1 ≡ new ++ log) × All P new
unfolding Emits
emitted r emits log = emits log

-- Every event stands in front of a log that its guard admits.
abbrev pub GuardedBy : (Event → Log → Type 0) → Log → Type 0
GuardedBy G [] = Unit
GuardedBy G (e ∷ log) = G e log × GuardedBy G log

guarded-append :
    {P : Event → Type 0} {G : Event → Log → Type 0}
    → ((e : Event) (log : Log) → P e → G e log)
    → (new log : Log) → All P new
    → GuardedBy G log
    → GuardedBy G (new ++ log)
guarded-append free [] log h g = g
guarded-append free (e ∷ new) log h g = (free e (new ++ log) h.0, guarded-append free new log h.1 g)

-- Events that need no guard keep every guard.
pub keeps_guards {ℓ} :
    {A : Type ℓ} {P : Event → Type 0} {G : Event → Log → Type 0}
    → ((e : Event) (log : Log) → P e → G e log)
    → (r : Run A) (log : Log) → Emits P r
    → GuardedBy G log
    → GuardedBy G (r log).1
unfolding Emits
keeps_guards free r log emits g =
    let (new, e, all) = emits log in rw e (guarded-append free new log all g)
