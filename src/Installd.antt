-- ===== src/Installd.antt =====
-- installer/gotools/internal/installd/installd.go: the server that receives an installation. It joins the
-- header (Wire), the search for userdata (Partition), the write of the image (ImageWrite) and the register
-- write behind the reboot (RebootFastboot). The connection is the bytes that arrive until it ends; the
-- sizes in which the buffered reader hands on what follows the header are a parameter.
pub mod Replies
pub mod Through
mod Tests
pub mod Succeeds
pub mod Delivered
use dc_1_pmos.Base.{
  ℕ, zero, suc, ◌+◌, ◌/◌, Bool, true, false, not, List, [], ◌∷◌, ◌++◌, map, Option, none, some,
  if◌then◌else◌, Bytes, codes, ltb, ◌==◌, Result, ok, err,
}
use dc_1_pmos.Std.Strconv.{ℤ, pos, negsuc}
use dc_1_pmos.Wire.{HeaderError, Header, parse_header}
use dc_1_pmos.Partition.{Sysfs, ResolveError, Resolved, resolve_userdata}
use dc_1_pmos.ImageWrite.Reader.{ReadError, Source}
use dc_1_pmos.ImageWrite.Target.{Target}
use dc_1_pmos.ImageWrite.Writer.{WriteError, Stage, Written, Outcome, write}

-- why a session failed
pub data Refusal : Type 0 where
  busy answers_failed : Refusal
  bad_header : HeaderError → Refusal
  invalid_answers finalize_failed cannot_open : Bytes → Refusal
  unresolved : ResolveError → Refusal
  too_large : ℤ → ℤ → Refusal
  write_failed : WriteError → Refusal

-- The lines of the session: progress, and the line FAIL or OK.
pub data Reply : Type 0 where
  host_connected unprovisioned_install image_verified : Reply
  target_is : Bytes → ℤ → Reply
  writing : Stage → Reply
  failed : Refusal → Reply
  installed : ℕ → Bytes → Reply

pub record Connection : Type 0 where
  pub incoming : Bytes
  pub ending : ReadError
  pub deliver : Bytes → List Bytes

-- firstLine
unfoldable pub until_newline : Bytes → Bytes
until_newline [] = []
until_newline (c ∷ cs) = let rest = until_newline cs in if c == b'\n' then [] else c ∷ rest

unfoldable pub first_line : Bytes → Bytes
first_line [] = codes "(no output)"
first_line (c ∷ cs) = until_newline (c ∷ cs)

-- a < b of two int64
unfoldable pub less : ℤ → ℤ → Bool
less (pos m) (pos n) = ltb m n
less (pos m) (negsuc n) = false
less (negsuc m) (pos n) = true
less (negsuc m) (negsuc n) = ltb n m

-- x / (1<<30), rounded towards zero
unfoldable pub negative : ℕ → ℤ
negative zero = pos 0
negative (suc n) = negsuc n

unfoldable pub in_gib : ℤ → ℤ
in_gib (pos n) = pos (n / 1073741824)
in_gib (negsuc n) = negative (suc n / 1073741824)

-- a size as Write takes it: below zero is below one MiB
unfoldable pub size_of : ℤ → ℕ
size_of (pos n) = n
size_of (negsuc n) = 0

module _ (t : Target) where
  -- The lock directory, the answers file and the device.
  pub record Tablet : Type 0 where
    pub locked : Bool
    pub answers : Option Bytes
    pub device : t.Device

  -- What a session leaves: its lines, the tablet, the device as finalize.sh found it if it ran, and
  -- whether a reboot is under way.
  pub record Session : Type 0 where
    pub replies : List Reply
    pub tablet : Tablet
    pub finalized : Option t.Device
    pub reboots : Bool

  -- What the session calls: writing the answers file (what it holds then, and whether that failed),
  -- provision.sh --validate and finalize.sh (`some` is the output of a failure), opening the device.
  pub record System : Type 0 where
    pub sysfs : Sysfs
    pub store_answers : Bytes → Option Bytes → Option Bytes × Bool
    pub validate : Option Bytes → Option Bytes
    pub opens : Bytes → Bool
    pub finalize : Bytes → Bool → Option Bytes → t.Device → Option Bytes × t.Device

  unfoldable pub refuse : Refusal → Tablet → Session
  refuse r tab = record { replies = failed r ∷ []; tablet = tab; finalized = none; reboots = false }

  unfoldable pub with_lines : List Reply → Session → Session
  with_lines rs s = record s { replies = rs ++ s.replies }

  -- behind finalize.sh
  unfoldable pub after_finalize : Written → Tablet → Option Bytes × t.Device → Session
  after_finalize w tab (some out, d) = record {
    replies = failed (finalize_failed (first_line out)) ∷ [];
    tablet = record tab { device = d };
    finalized = some tab.device;
    reboots = false;
  }
  after_finalize w tab (none, d) = record {
    replies = installed w.size w.sha256 ∷ [];
    tablet = record { locked = tab.locked; answers = none; device = d };
    finalized = some tab.device;
    reboots = true;
  }

  module _ (sys : System) where
    -- behind Write
    unfoldable pub after_write : Header → Bytes → Tablet → Result WriteError Written → Session
    after_write h dev tab (err e) = refuse (write_failed e) tab
    after_write h dev tab (ok w) =
        with_lines (image_verified ∷ [])
          (after_finalize w tab (sys.finalize dev h.unprovisioned tab.answers tab.device))

    unfoldable pub report_write : Header → Bytes → Tablet → Outcome t → Session
    report_write h dev tab o =
        with_lines (map writing o.stages)
          (after_write h dev (record tab { device = o.device }) o.result)

    module _ (sha : Bytes → Bytes) where
      unfoldable pub store_image : Header → Source → Bytes → Tablet → Session
      store_image h src dev tab =
          if sys.opens dev
          then report_write h dev tab (write t sha src (size_of h.size) h.sha256 tab.device)
          else refuse (cannot_open dev) tab

      unfoldable pub check_size : Header → Source → Resolved → Tablet → Session
      check_size h src target tab =
          if less target.bytes h.size
          then refuse (too_large h.size target.bytes) tab
          else store_image h src target.device tab

      unfoldable pub use_target : Header → Source → Tablet → Result ResolveError Resolved → Session
      use_target h src tab (err e) = refuse (unresolved e) tab
      use_target h src tab (ok target) =
          with_lines (target_is target.device (in_gib target.bytes) ∷ [])
            (check_size h src target tab)

      -- from ResolveUserdata on
      unfoldable pub install : Header → Source → Tablet → Session
      install h src tab = use_target h src tab (resolve_userdata sys.sysfs)

      unfoldable pub check_answers : Header → Source → Tablet → Option Bytes → Session
      check_answers h src tab (some out) = refuse (invalid_answers (first_line out)) tab
      check_answers h src tab none = install h src tab

      unfoldable pub keep_answers : Header → Source → Tablet → Option Bytes × Bool → Session
      keep_answers h src tab (file, false) = refuse answers_failed (record tab { answers = file })
      keep_answers h src tab (file, true) =
          check_answers h src (record tab { answers = file }) (sys.validate file)

      -- the branch on Unprovisioned
      unfoldable pub provision : Bool → Header → Source → Tablet → Session
      provision true h src tab = with_lines (unprovisioned_install ∷ []) (install h src tab)
      provision false h src tab = keep_answers h src tab (sys.store_answers h.answers tab.answers)

      unfoldable pub receive : Connection → Tablet → Result HeaderError (Header × Bytes) → Session
      receive c tab (err e) = refuse (bad_header e) tab
      receive c tab (ok (h, body)) =
          provision h.unprovisioned h (record { chunks = c.deliver body; ending = c.ending }) tab

      -- the deferred removal of the lock
      unfoldable pub unlock : Session → Session
      unlock s = record s { tablet = record (s.tablet) { locked = false } }

      unfoldable pub take_lock : Connection → Tablet → Bool → Session
      take_lock c tab true = refuse busy tab
      take_lock c tab false =
          unlock (receive c (record tab { locked = true }) (parse_header c.incoming))

      unfoldable pub serve : Connection → Tablet → Session
      serve c tab = with_lines (host_connected ∷ []) (take_lock c tab tab.locked)

      -- The loop of Main over what Accept returned, `none` being an error; with `once` the first
      -- session is the last. The sessions, newest last.
      unfoldable pub serve_all : Bool → List (Option Connection) → Tablet → List Session
      serve_all once [] tab = []
      serve_all once (none ∷ cs) tab = serve_all once cs tab
      serve_all once (some c ∷ cs) tab =
          let s = serve c tab in
          let later = serve_all once cs s.tablet in if once then s ∷ [] else s ∷ later

      -- Main behind its flags, `none` where they do not parse: how it ended, if it did, and the sessions.
      unfoldable pub exit_code : Bool → List Session → Option ℕ
      exit_code true (s ∷ ss) = some 0
      exit_code once ss = none

      unfoldable pub run_server :
          Option Bool → Bool → List (Option Connection) → Tablet → Option ℕ × List Session
      run_server none listens cs tab = (some 2, [])
      run_server (some once) false cs tab = (some 1, [])
      run_server (some once) true cs tab = let ss = serve_all once cs tab in (exit_code once ss, ss)
