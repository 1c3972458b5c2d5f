-- ===== src/Installd/Through.antt =====
-- What holds of each line of a session of installd.go, from what holds where the session can end.
use dc_1_pmos.Base.{
  ◌≡◌, refl, Bool, true, false, List, [], ◌∷◌, Option, none, some, Bytes, Result, ok, err, All,
  All-append, if_either,
}
use dc_1_pmos.Wire.{HeaderError, Header, parse_header}
use dc_1_pmos.Partition.{ResolveError, Resolved, resolve_userdata}
use dc_1_pmos.ImageWrite.Reader.{Source}
use dc_1_pmos.ImageWrite.Target.{Target}
use dc_1_pmos.ImageWrite.Writer.{WriteError, Written, Outcome, write}
use dc_1_pmos.Installd.{
  Refusal, write_failed, finalize_failed, Reply, failed, installed, Connection, Tablet, Session,
  System, refuse, with_lines, after_finalize, after_write, report_write, store_image, check_size,
  use_target, install, check_answers, keep_answers, provision, receive, unlock, take_lock, serve,
  less, size_of,
}
use dc_1_pmos.Installd.Replies.{is_end, IsProgress, stages-IsProgress}

-- The session ended before it wrote.
unfoldable pub is_early : Refusal → Bool
is_early (write_failed e) = false
is_early (finalize_failed out) = false
is_early _ = true

module _ (t : Target) (sys : System t) (sha : Bytes → Bytes) where
  -- Write, as the session for a header, a body and a target calls it
  abbrev pub written : Connection → Header → Bytes → t.Device → Outcome t
  written c h body d =
      write t sha (record { chunks = c.deliver body; ending = c.ending }) (size_of h.size) h.sha256
        d

  -- The header, the body and the target are those of the session, and the image fits.
  pub record Reaches (c : Connection) (h : Header) (body : Bytes) (target : Resolved) : Type 0 where
    pub parsed : parse_header c.incoming ≡ ok (h, body)
    pub resolved : resolve_userdata sys.sysfs ≡ ok target
    pub fits : less target.bytes h.size ≡ false

  -- A statement on a line, the device behind the session, and the device that finalize.sh found, at
  -- each place where a session can end.
  pub record AtEnds (P : t.Device → Option t.Device → Reply → Type 0) (c : Connection)
      (before : t.Device) : Type 0 where
    pub on_progress : (d : t.Device) (f : Option t.Device) (r : Reply) → IsProgress r → P d f r
    pub on_refusal : (r : Refusal) → is_early r ≡ true → P before none (failed r)
    pub on_error :
        (h : Header) (body : Bytes) (target : Resolved)
        → Reaches c h body target
        → (e : WriteError) → (written c h body before).result ≡ err e
        → P (written c h body before).device none (failed (write_failed e))
    pub on_unfinished :
        (h : Header) (body : Bytes) (target : Resolved)
        → Reaches c h body target
        → (w : Written) → (written c h body before).result ≡ ok w
        → (d : t.Device) (out : Bytes)
        → P d (some (written c h body before).device) (failed (finalize_failed out))
    pub on_success :
        (h : Header) (body : Bytes) (target : Resolved)
        → Reaches c h body target
        → (w : Written) → (written c h body before).result ≡ ok w
        → (d : t.Device) → P d (some (written c h body before).device) (installed w.size w.sha256)

  module _ (P : t.Device → Option t.Device → Reply → Type 0) (c : Connection) (before : t.Device)
      (ends : AtEnds P c before) where
    abbrev pub Holds : Session t → Type 0
    Holds s = All (P s.tablet.device s.finalized) s.replies

    progress :
        (d : t.Device) (f : Option t.Device) (rs : List Reply) → All IsProgress rs → All (P d f) rs
    progress d f [] ps = tt
    progress d f (r ∷ rs) ps = (ends.on_progress d f r ps.0, progress d f rs ps.1)

    with_lines-Holds :
        (rs : List Reply) (s : Session t) → All IsProgress rs → Holds s → Holds (with_lines t rs s)
    unfolding with_lines
    with_lines-Holds rs s ps h =
        All-append (P s.tablet.device s.finalized) rs s.replies
          (progress s.tablet.device s.finalized rs ps) h

    refuse-Holds :
        (r : Refusal) (tab : Tablet t)
        → is_early r ≡ true
        → tab.device ≡ before
        → Holds (refuse t r tab)
    unfolding refuse
    refuse-Holds r tab early same = rw same (ends.on_refusal r early, tt)

    module _ (h : Header) (body : Bytes) (target : Resolved)
        (reached : Reaches c h body target) where
      after_finalize-Holds :
          (w : Written) (tab : Tablet t) (r : Option Bytes × t.Device)
          → (written c h body before).result ≡ ok w
          → tab.device ≡ (written c h body before).device
          → Holds (after_finalize t w tab r)
      unfolding after_finalize
      after_finalize-Holds w tab (some out, d) won same =
          rw same (ends.on_unfinished h body target reached w won d _, tt)
      after_finalize-Holds w tab (none, d) won same =
          rw same (ends.on_success h body target reached w won d, tt)

      after_write-Holds :
          (dev : Bytes) (tab : Tablet t) (r : Result WriteError Written)
          → (written c h body before).result ≡ r
          → tab.device ≡ (written c h body before).device
          → Holds (after_write t sys h dev tab r)
      unfolding after_write refuse is_end
      after_write-Holds dev tab (err e) lost same =
          rw same (ends.on_error h body target reached e lost, tt)
      after_write-Holds dev tab (ok w) won same =
          with_lines-Holds _ _ (refl, tt) (after_finalize-Holds w tab _ won same)

      store_image-Holds :
          (tab : Tablet t)
          → tab.device ≡ before
          → Holds (
              store_image t sys sha h
                (record { chunks = c.deliver body; ending = c.ending })
                target.device
                tab)
      unfolding store_image report_write is_early
      store_image-Holds tab same =
          if_either Holds (sys.opens target.device)
            (λ opened.
              with_lines-Holds _ _ (stages-IsProgress _)
                (rw same (after_write-Holds target.device _ _ refl refl)))
            (λ closed. refuse-Holds _ tab refl same)

    abbrev source_of : Bytes → Source
    source_of body = record { chunks = c.deliver body; ending = c.ending }

    module _ (h : Header) (body : Bytes) (parsed : parse_header c.incoming ≡ ok (h, body)) where
      use_target-Holds :
          (tab : Tablet t) (r : Result ResolveError Resolved)
          → resolve_userdata sys.sysfs ≡ r
          → tab.device ≡ before
          → Holds (use_target t sys sha h (source_of body) tab r)
      unfolding use_target check_size is_end is_early
      use_target-Holds tab (err e) resolved same = refuse-Holds _ tab refl same
      use_target-Holds tab (ok target) resolved same =
          with_lines-Holds _ _ (refl, tt)
            (if_either Holds (less target.bytes h.size) (λ large. refuse-Holds _ tab refl same)
              (λ fits.
                store_image-Holds h body target
                  (record { parsed = parsed; resolved = resolved; fits = fits }) tab same))

      check_answers-Holds :
          (tab : Tablet t) (r : Option Bytes)
          → tab.device ≡ before
          → Holds (check_answers t sys sha h (source_of body) tab r)
      unfolding check_answers install is_early
      check_answers-Holds tab (some out) same = refuse-Holds _ tab refl same
      check_answers-Holds tab none same = use_target-Holds tab _ refl same

      keep_answers-Holds :
          (tab : Tablet t) (r : Option Bytes × Bool)
          → tab.device ≡ before
          → Holds (keep_answers t sys sha h (source_of body) tab r)
      unfolding keep_answers is_early
      keep_answers-Holds tab (file, false) same = refuse-Holds _ _ refl same
      keep_answers-Holds tab (file, true) same = check_answers-Holds _ _ same

      provision-Holds :
          (u : Bool) (tab : Tablet t)
          → tab.device ≡ before
          → Holds (provision t sys sha u h (source_of body) tab)
      unfolding provision install is_end
      provision-Holds true tab same =
          with_lines-Holds _ _ (refl, tt) (use_target-Holds tab _ refl same)
      provision-Holds false tab same = keep_answers-Holds tab _ same

    receive-Holds :
        (tab : Tablet t) (r : Result HeaderError (Header × Bytes))
        → parse_header c.incoming ≡ r
        → tab.device ≡ before
        → Holds (receive t sys sha c tab r)
    unfolding receive is_early
    receive-Holds tab (err e) parsed same = refuse-Holds _ tab refl same
    receive-Holds tab (ok (h, body)) parsed same =
        provision-Holds h body parsed h.unprovisioned tab same

    take_lock-Holds :
        (tab : Tablet t) (locked : Bool)
        → tab.device ≡ before
        → Holds (take_lock t sys sha c tab locked)
    unfolding take_lock unlock is_early
    take_lock-Holds tab true same = refuse-Holds _ tab refl same
    take_lock-Holds tab false same = receive-Holds (record tab { locked = true }) _ refl same

    pub serve-Holds : (tab : Tablet t) → tab.device ≡ before → Holds (serve t sys sha c tab)
    unfolding serve is_end
    serve-Holds tab same = with_lines-Holds _ _ (refl, tt) (take_lock-Holds tab tab.locked same)
