-- ===== src/InstallerInit/Facts.antt =====
-- What stands in the log of the installation init, what each event wants to stand there before it, and how
-- a computation carries both.
use dc_1_pmos.Base.{
  ◌≡◌, refl, Bool, true, false, not, ◌&&◌, ◌||◌, List, [], ◌∷◌, Bytes, codes, bytes_equal, All,
  arith,
}
use dc_1_pmos.InstallerInit.Ops.{
  Call, mount, write_file, exists, wait_for, display, blit, spawn, Event, did, Log, Machine, Run,
  ◌>>=◌, ◌>>◌, note, call, read,
}
use dc_1_pmos.InstallerInit.Boot.{rc_argv}
use dc_1_pmos.InstallerInit.Gate.{
  panel_params, prod_seq, probe_stage, card_node, stock_gce, mainline_gce, gce_driver_path,
}

-- The path was found.
unfoldable pub shows : Bytes → Event → Bool
shows path (did (exists p) true) = bytes_equal p path
shows path (did (wait_for p n) true) = bytes_equal p path
shows path _ = false

-- the driver of GCE, by either name
unfoldable pub shows_gce : Event → Bool
shows_gce e = shows (gce_driver_path stock_gce) e || shows (gce_driver_path mainline_gce) e

unfoldable pub shows_card : Event → Bool
shows_card e = shows card_node e

unfoldable pub same_argv : List Bytes → List Bytes → Bool
same_argv [] [] = true
same_argv (a ∷ xs) (b ∷ ys) = bytes_equal a b && same_argv xs ys
same_argv _ _ = false

-- The start of the second stage was tried, with success or without, or what it needs was found missing.
unfoldable pub starts_second : Event → Bool
starts_second (did (spawn argv) r) = same_argv argv rc_argv
starts_second (did (exists p) false) =
    bytes_equal p (codes "/etc/rc.sh") || bytes_equal p (codes "/bin/busybox")
starts_second _ = false

-- The panel was acquired.
unfoldable pub lights : Event → Bool
lights (did display true) = true
lights _ = false

unfoldable pub any : (Event → Bool) → Log → Bool
any f [] = false
any f (e ∷ log) = f e || any f log

unfoldable pub is_panel : Bytes → Bool
is_panel p = bytes_equal p prod_seq || bytes_equal p probe_stage

unfoldable pub in_memory : Bytes → Bool
in_memory fs_type =
    bytes_equal fs_type (codes "proc")
    || (bytes_equal fs_type (codes "sysfs")
        || (bytes_equal fs_type (codes "devtmpfs") || bytes_equal fs_type (codes "configfs")))

-- What an event wants: the gate wants the second stage, a write that powers the panel or releases its
-- probe wants GCE bound as well, the display wants the card's node, a blit wants the display, and a mount
-- is of a file system in memory.
unfoldable pub wants : Event → Log → Bool
wants (did (exists p) r) log = not (bytes_equal p panel_params) || any starts_second log
wants (did (write_file p v) r) log =
    not (is_panel p) || (any shows_gce log && any starts_second log)
wants (did display r) log = any shows_card log && any starts_second log
wants (did blit r) log = any lights log
wants (did (mount source target fs_type options) r) log = in_memory fs_type
wants _ log = true

unfoldable pub is_ordered : Log → Bool
is_ordered [] = true
is_ordered (e ∷ log) = wants e log && is_ordered log

-- The log is in order, and each of the tests holds of an event in it.
abbrev pub Holds : List (Event → Bool) → Log → Type 0
Holds fs log = (is_ordered log ≡ true) × All (λ (f : Event → Bool). any f log ≡ true) fs

-- From a log where `P` holds, the computation ends where `Q` holds of its result and the new log.
abbrev pub Leads {ℓ} : {A : Type ℓ} → (Log → Type 0) → Run A → (A → Log → Type 0) → Type 0
Leads P r Q = (log : Log) → P log → Q (r log).0 (r log).1

module _ {ℓ κ} {A : Type ℓ} {B : Type κ} where
  pub Leads-bind :
      (P : Log → Type 0) (Q : A → Log → Type 0) (R : B → Log → Type 0) (first : Run A)
      (rest : A → Run B)
      → Leads P first Q
      → ((a : A) → Leads (Q a) (rest a) R)
      → Leads P (first >>= rest) R
  unfolding ◌>>=◌
  Leads-bind P Q R first rest f g log p = g (first log).0 (first log).1 (f log p)

  pub Leads-then :
      (P Q : Log → Type 0) (R : B → Log → Type 0) (first : Run A) (rest : Run B)
      → Leads P first (λ a. Q)
      → Leads Q rest R
      → Leads P (first >> rest) R
  unfolding ◌>>◌
  Leads-then P Q R first rest f g log p = g (first log).1 (f log p)

still :
    (fs : List (Event → Bool)) (e : Event) (log : Log)
    → All (λ (f : Event → Bool). any f log ≡ true) fs
    → All (λ (f : Event → Bool). any f (e ∷ log) ≡ true) fs
unfolding any
still [] e log h = tt
still (f ∷ fs) e log h = (ground (arith, h.0), still fs e log h.1)

-- an event whose wants are met
pub Holds-cons :
    (fs : List (Event → Bool)) (e : Event) (log : Log)
    → wants e log ≡ true
    → Holds fs log
    → Holds fs (e ∷ log)
unfolding is_ordered
Holds-cons fs e log met h = (ground (arith, met, h.0), still fs e log h.1)

-- the facts behind a call that adds one to `fs` where its answer is `b`
unfoldable pub with_fact : Bool → List (Event → Bool) → (Event → Bool) → List (Event → Bool)
with_fact true fs f = f ∷ fs
with_fact false fs f = fs

module _ (fs : List (Event → Bool)) where
  pub note-Leads :
      (e : Event) → ((log : Log) → wants e log ≡ true) → Leads (Holds fs) (note e) (λ r. Holds fs)
  note-Leads e free log h = Holds-cons fs e log (free log) h

  module _ (m : Machine) where
    -- a call whose wants are met where `fs` holds
    pub call_met :
        (c : Call)
        → ((r : Bool) (log : Log) → Holds fs log → wants (did c r) log ≡ true)
        → Leads (Holds fs) (call m c) (λ r. Holds fs)
    call_met c met log h = Holds-cons fs _ log (met (m.answer log c) log h) h

    pub call-Leads :
        (c : Call)
        → ((r : Bool) (log : Log) → wants (did c r) log ≡ true)
        → Leads (Holds fs) (call m c) (λ r. Holds fs)
    call-Leads c free = call_met c (λ r log h. free r log)

    pub read-Leads : (path : Bytes) → Leads (Holds fs) (read m path) (λ r. Holds fs)
    unfolding wants
    read-Leads path log h = Holds-cons fs _ log refl h

    gained :
        (c : Call) (f : Event → Bool) (r : Bool) (log : Log)
        → wants (did c r) log ≡ true
        → f (did c r) ≡ true
        → Holds fs log
        → Holds (f ∷ fs) (did c r ∷ log)
    unfolding any
    gained c f r log met gain h =
        let (ordered, facts) = Holds-cons fs (did c r) log met h in
        (ordered, (ground (arith, gain), facts))

    -- a call that adds a fact whatever it answers
    pub call-Adds :
        (c : Call) (f : Event → Bool)
        → ((r : Bool) (log : Log) → wants (did c r) log ≡ true)
        → ((r : Bool) → f (did c r) ≡ true)
        → Leads (Holds fs) (call m c) (λ r. Holds (f ∷ fs))
    call-Adds c f free gain log h =
        let r = m.answer log c in gained c f r log (free r log) (gain r) h

    -- a call that adds a fact where its answer is true
    pub call-Gains :
        (c : Call) (f : Event → Bool)
        → ((r : Bool) (log : Log) → Holds fs log → wants (did c r) log ≡ true)
        → f (did c true) ≡ true
        → Leads (Holds fs) (call m c) (λ r. Holds (with_fact r fs f))
    unfolding with_fact
    call-Gains c f met gain log h = by (m.answer log c)
      where
        by : (r : Bool) → Holds (with_fact r fs f) (did c r ∷ log)
        by true = gained c f true log (met true log h) gain h
        by false = Holds-cons fs (did c false) log (met false log h) h

    -- a call that adds a fact where its answer is false
    pub call-Misses :
        (c : Call) (f : Event → Bool)
        → ((r : Bool) (log : Log) → Holds fs log → wants (did c r) log ≡ true)
        → f (did c false) ≡ true
        → Leads (Holds fs) (call m c) (λ r. Holds (with_fact (not r) fs f))
    unfolding with_fact
    call-Misses c f met gain log h = by (m.answer log c)
      where
        by : (r : Bool) → Holds (with_fact (not r) fs f) (did c r ∷ log)
        by true = Holds-cons fs (did c true) log (met true log h) h
        by false = gained c f false log (met false log h) gain h

-- a computation that keeps the order and the facts `fs`
abbrev pub Keeps {ℓ} : {A : Type ℓ} → List (Event → Bool) → Run A → Type 0
Keeps fs r = Leads (Holds fs) r (λ a. Holds fs)

module _ {ℓ κ} {A : Type ℓ} {B : Type κ} (fs : List (Event → Bool)) where
  pub Keeps-then :
      (first : Run A) (rest : Run B) → Keeps fs first → Keeps fs rest → Keeps fs (first >> rest)
  Keeps-then first rest f g = Leads-then (Holds fs) (Holds fs) (λ a. Holds fs) first rest f g

  pub Keeps-bind :
      (first : Run A) (rest : A → Run B)
      → Keeps fs first
      → ((a : A) → Keeps fs (rest a))
      → Keeps fs (first >>= rest)
  Keeps-bind first rest f g = Leads-bind (Holds fs) (λ a. Holds fs) (λ a. Holds fs) first rest f g
