-- ===== src/Installd/Succeeds.antt =====
-- A session of installd.go in which nothing fails ends in OK and a reboot.
use dc_1_pmos.Base.{
  ℕ, ◌≤◌, ◌≡◌, refl, sym, ap, ◌∙◌, ◌⊎◌, inl, inr, Bool, true, false, List, [], ◌∷◌, ◌++◌, Option,
  none, some, Bytes, ok, length, take, append_assoc, arith,
}
use dc_1_pmos.Wire.{Header}
use dc_1_pmos.Wire.Valid.{parse_header-IsValid}
use dc_1_pmos.Partition.{Resolved}
use dc_1_pmos.ImageWrite.Reader.{Source, flat}
use dc_1_pmos.ImageWrite.Target.{Target, IsHonest, IsReliable}
use dc_1_pmos.ImageWrite.Writer.{mib, Written}
use dc_1_pmos.ImageWrite.Writer.Succeeds.{write_succeeds}
use dc_1_pmos.Installd.{
  Reply, installed, Connection, Tablet, Session, System, with_lines, after_finalize, after_write,
  report_write, store_image, check_size, use_target, install, check_answers, keep_answers,
  provision, receive, unlock, take_lock, serve, size_of,
}
use dc_1_pmos.Installd.Through.{written, Reaches}
use dc_1_pmos.Installd.Delivered.{IsWhole}

module _ (t : Target) (sys : System t) where
  -- the line OK is the last, and the reboot is under way
  pub record IsInstalled (n : ℕ) (digest : Bytes) (s : Session t) : Type 0 where
    pub lines : List Reply
    pub replies_end : s.replies ≡ lines ++ (installed n digest ∷ [])
    pub rebooting : s.reboots ≡ true

  -- The answers are not needed, or were stored and passed the validation.
  unfoldable pub Accepts : Header → Option Bytes → Type 0
  Accepts h file =
      (h.unprovisioned ≡ true)
      ⊎ ((h.unprovisioned ≡ false)
          × ((sys.store_answers h.answers file).1 ≡ true)
          × (sys.validate (sys.store_answers h.answers file).0 ≡ none))

  module _ (n : ℕ) (digest : Bytes) where
    abbrev Good : Session t → Type 0
    Good = IsInstalled n digest

    with_lines-Good : (rs : List Reply) (s : Session t) → Good s → Good (with_lines t rs s)
    unfolding with_lines
    with_lines-Good rs s g = record {
      lines = rs ++ g.lines;
      replies_end =
          ap (λ (l : List Reply). rs ++ l) g.replies_end
          ∙ sym (append_assoc rs g.lines (installed n digest ∷ []));
      rebooting = g.rebooting;
    }

    after_finalize-Good :
        (w : Written) (tab : Tablet t) (r : Option Bytes × t.Device)
        → w ≡ record { size = n; sha256 = digest }
        → r.0 ≡ none
        → Good (after_finalize t w tab r)
    unfolding after_finalize
    after_finalize-Good w tab (some out, d) made fine = absurd cc
    after_finalize-Good w tab (none, d) made fine = record {
      lines = [];
      replies_end = ap (λ (x : Written). installed x.size x.sha256 ∷ []) made;
      rebooting = refl;
    }

  module _ (sha : Bytes → Bytes) (c : Connection) (whole : IsWhole c) (honest : IsHonest t)
      (rel : IsReliable t)
      (finalizes : (dev : Bytes) (u : Bool) (file : Option Bytes) (d : t.Device)
        → (sys.finalize dev u file d).0 ≡ none) where
    module _ (h : Header) (body : Bytes) (target : Resolved)
        (reached : Reaches t sys sha c h body target) (opened : sys.opens target.device ≡ true)
        (long : size_of h.size ≤ length body)
        (right : h.sha256 ≡ sha (take (size_of h.size) body)) where
      abbrev Ready : Session t → Type 0
      Ready = Good (size_of h.size) h.sha256

      abbrev source : Source
      source = record { chunks = c.deliver body; ending = c.ending }

      written_ok :
          (d : t.Device)
          → (written t sys sha c h body d).result
            ≡ ok (record { size = size_of h.size; sha256 = h.sha256 })
      unfolding IsWhole size_of mib
      written_ok d =
          let (m, is_m, big, small) =
            (parse_header-IsValid c.incoming reached.parsed).size_in_range in
          let size : size_of h.size ≡ m = ap size_of is_m in
          let same : flat source.chunks ≡ body = whole body in
          let enough : size_of h.size ≤ length (flat source.chunks) = rw same long in
          let digest : h.sha256 ≡ sha (take (size_of h.size) (flat source.chunks)) =
            rw same right in
          (write_succeeds t sha source (size_of h.size) h.sha256 d honest rel
            (omega (arith, size, big)) enough (inr digest)).0
          ∙ ap (λ (b : Bytes). ok (record { size = size_of h.size; sha256 = b })) (sym digest)

      store_image-Ready :
          (tab : Tablet t) → Ready (store_image t sys sha h source target.device tab)
      unfolding store_image report_write after_write
      store_image-Ready tab = rw opened (
          with_lines-Good _ _ _ _ (
            rw (written_ok tab.device)
              (with_lines-Good _ _ _ _ (after_finalize-Good _ _ _ _ _ refl (finalizes _ _ _ _)))))

      install-Ready : (tab : Tablet t) → Ready (install t sys sha h source tab)
      unfolding install use_target check_size
      install-Ready tab =
          rw reached.resolved (with_lines-Good _ _ _ _ (rw reached.fits (store_image-Ready tab)))

      provision-Ready :
          (u : Bool) (tab : Tablet t)
          → (u ≡ true)
            ⊎ ((u ≡ false)
                × ((sys.store_answers h.answers tab.answers).1 ≡ true)
                × (sys.validate (sys.store_answers h.answers tab.answers).0 ≡ none))
          → Ready (provision t sys sha u h source tab)
      unfolding provision keep_answers check_answers
      provision-Ready true tab accepted = with_lines-Good _ _ _ _ (install-Ready tab)
      provision-Ready false tab (inl bare) = absurd cc
      provision-Ready false tab (inr (full, stored, valid)) = rw stored (
          rw valid
            (install-Ready (record tab { answers = (sys.store_answers h.answers tab.answers).0 })))

      -- On an honest device on which no call fails, where finalize.sh succeeds, no other session holds the
      -- lock, the header is one that ParseHeader accepts, the answers are not needed or were stored
      -- and validated, userdata was found and opened and is not smaller than the image, and the whole
      -- image arrives with the digest that was declared: the last line of the session is OK with
      -- that size and digest, and the reboot to fastboot is under way.
      pub serve_succeeds :
          (tab : Tablet t)
          → tab.locked ≡ false
          → Accepts h tab.answers
          → IsInstalled (size_of h.size) h.sha256 (serve t sys sha c tab)
      unfolding serve take_lock unlock receive Accepts
      serve_succeeds tab free accepted = rw free (
          with_lines-Good _ _ _ _ (
            rw reached.parsed (
              let g = provision-Ready h.unprovisioned (record tab { locked = true }) accepted in
              record { lines = g.lines; replies_end = g.replies_end; rebooting = g.rebooting })))
