-- ===== src/Installd/Replies.antt =====
-- A session of installd.go ends in exactly one line OK or FAIL.
use dc_1_pmos.Base.{
  ◌≡◌, refl, Bool, true, false, List, [], ◌∷◌, ◌++◌, map, Option, none, some, Bytes, Result, ok,
  err, All, if_both,
}
use dc_1_pmos.Wire.{HeaderError, Header}
use dc_1_pmos.Partition.{ResolveError, Resolved}
use dc_1_pmos.ImageWrite.Reader.{Source}
use dc_1_pmos.ImageWrite.Target.{Target}
use dc_1_pmos.ImageWrite.Writer.{WriteError, Stage, Written}
use dc_1_pmos.Installd.{
  Reply, failed, installed, writing, Connection, Tablet, Session, System, refuse, with_lines,
  after_finalize, after_write, report_write, store_image, check_size, use_target, install,
  check_answers, keep_answers, provision, receive, unlock, take_lock, serve, less,
}

-- the line FAIL or OK
unfoldable pub is_end : Reply → Bool
is_end (failed r) = true
is_end (installed n sha) = true
is_end _ = false

unfoldable pub EndsOnce : List Reply → Type 0
EndsOnce [] = ⊥
EndsOnce (r ∷ []) = is_end r ≡ true
EndsOnce (r ∷ s ∷ rs) = (is_end r ≡ false) × EndsOnce (s ∷ rs)

abbrev pub IsProgress : Reply → Type 0
IsProgress r = is_end r ≡ false

EndsOnce-cons : (r : Reply) (rs : List Reply) → IsProgress r → EndsOnce rs → EndsOnce (r ∷ rs)
unfolding EndsOnce
EndsOnce-cons r [] p h = absurd h
EndsOnce-cons r (s ∷ rs) p h = (p, h)

EndsOnce-append : (rs ss : List Reply) → All IsProgress rs → EndsOnce ss → EndsOnce (rs ++ ss)
EndsOnce-append [] ss ps h = h
EndsOnce-append (r ∷ rs) ss ps h = EndsOnce-cons r (rs ++ ss) ps.0 (EndsOnce-append rs ss ps.1 h)

pub stages-IsProgress : (ss : List Stage) → All IsProgress (map writing ss)
unfolding is_end
stages-IsProgress [] = tt
stages-IsProgress (s ∷ ss) = (refl, stages-IsProgress ss)

module _ (t : Target) (sys : System t) where
  abbrev Ends : Session t → Type 0
  Ends s = EndsOnce s.replies

  with_lines-Ends :
      (rs : List Reply) (s : Session t) → All IsProgress rs → Ends s → Ends (with_lines t rs s)
  unfolding with_lines
  with_lines-Ends rs s ps h = EndsOnce-append rs s.replies ps h

  after_finalize-Ends :
      (w : Written) (tab : Tablet t) (r : Option Bytes × t.Device) → Ends (after_finalize t w tab r)
  unfolding after_finalize EndsOnce is_end
  after_finalize-Ends w tab (some out, d) = refl
  after_finalize-Ends w tab (none, d) = refl

  after_write-Ends :
      (h : Header) (dev : Bytes) (tab : Tablet t) (r : Result WriteError Written)
      → Ends (after_write t sys h dev tab r)
  unfolding after_write refuse EndsOnce is_end
  after_write-Ends h dev tab (err e) = refl
  after_write-Ends h dev tab (ok w) = with_lines-Ends _ _ (refl, tt) (after_finalize-Ends w tab _)

  module _ (sha : Bytes → Bytes) where
    use_target-Ends :
        (h : Header) (src : Source) (tab : Tablet t) (r : Result ResolveError Resolved)
        → Ends (use_target t sys sha h src tab r)
    unfolding use_target check_size store_image report_write refuse EndsOnce is_end
    use_target-Ends h src tab (err e) = refl
    use_target-Ends h src tab (ok target) =
        with_lines-Ends _ _ (refl, tt)
          (if_both Ends (less target.bytes h.size) refl (
            if_both Ends (sys.opens target.device)
              (with_lines-Ends _ _ (stages-IsProgress _) (after_write-Ends h target.device _ _))
              refl))

    check_answers-Ends :
        (h : Header) (src : Source) (tab : Tablet t) (r : Option Bytes)
        → Ends (check_answers t sys sha h src tab r)
    unfolding check_answers install refuse EndsOnce is_end
    check_answers-Ends h src tab (some out) = refl
    check_answers-Ends h src tab none = use_target-Ends h src tab _

    keep_answers-Ends :
        (h : Header) (src : Source) (tab : Tablet t) (r : Option Bytes × Bool)
        → Ends (keep_answers t sys sha h src tab r)
    unfolding keep_answers refuse EndsOnce is_end
    keep_answers-Ends h src tab (file, false) = refl
    keep_answers-Ends h src tab (file, true) = check_answers-Ends h src _ _

    provision-Ends :
        (u : Bool) (h : Header) (src : Source) (tab : Tablet t)
        → Ends (provision t sys sha u h src tab)
    unfolding provision install is_end
    provision-Ends true h src tab = with_lines-Ends _ _ (refl, tt) (use_target-Ends h src tab _)
    provision-Ends false h src tab = keep_answers-Ends h src tab _

    receive-Ends :
        (c : Connection) (tab : Tablet t) (r : Result HeaderError (Header × Bytes))
        → Ends (receive t sys sha c tab r)
    unfolding receive refuse EndsOnce is_end
    receive-Ends c tab (err e) = refl
    receive-Ends c tab (ok (h, body)) = provision-Ends h.unprovisioned h _ tab

    take_lock-Ends :
        (c : Connection) (tab : Tablet t) (locked : Bool) → Ends (take_lock t sys sha c tab locked)
    unfolding take_lock unlock refuse EndsOnce is_end
    take_lock-Ends c tab true = refl
    take_lock-Ends c tab false = receive-Ends c _ _

    -- Whatever arrives and whatever fails, the last line of a session is OK or FAIL, and it is the only
    -- line of either kind.
    pub serve-EndsOnce :
        (c : Connection) (tab : Tablet t) → EndsOnce (serve t sys sha c tab).replies
    unfolding serve is_end
    serve-EndsOnce c tab = with_lines-Ends _ _ (refl, tt) (take_lock-Ends c tab tab.locked)
