-- ===== src/Installd/Delivered.antt =====
-- What the lines OK and FAIL of installd.go mean for the device: the composition of the header, the
-- search for userdata and the write of the image.
use dc_1_pmos.Base.{
  ℕ, ◌≤◌, ◌≡◌, refl, ap, ◌∙◌, subst, ◌⊎◌, inl, inr, true, [], Option, none, some, Bytes, ok, err,
  All, length, take, arith,
}
use dc_1_pmos.Std.Strconv.{pos}
use dc_1_pmos.Wire.{Header}
use dc_1_pmos.Wire.Valid.{IsSha256, parse_header-IsValid}
use dc_1_pmos.Partition.{Resolved}
use dc_1_pmos.ImageWrite.Reader.{Source, flat}
use dc_1_pmos.ImageWrite.Target.{Target, IsHonest, segment}
use dc_1_pmos.ImageWrite.Writer.{mib, WriteError, Written, scrub}
use dc_1_pmos.ImageWrite.Writer.Correct.{write_correct}
use dc_1_pmos.ImageWrite.Writer.Safety.{IsClosed, write_fails-IsClosed}
use dc_1_pmos.Installd.{
  Refusal, write_failed, finalize_failed, Reply, failed, installed, Connection, Tablet, System,
  serve, size_of,
}
use dc_1_pmos.Installd.Replies.{is_end, IsProgress}
use dc_1_pmos.Installd.Through.{is_early, written, Reaches, AtEnds, serve-Holds}

-- the sizes of the reads lose and add nothing
unfoldable pub IsWhole : Connection → Type 0
IsWhole c = (b : Bytes) → flat (c.deliver b) ≡ b

module _ (t : Target) (honest : IsHonest t) (sys : System t) (sha : Bytes → Bytes)
    (c : Connection) where
  open honest use {stored}

  -- What arrived is a header and an image of the size that it declares and with its digest, userdata was
  -- found and is no smaller, and the device that finalize.sh was started on holds the image.
  pub record IsDelivered (found : Option t.Device) (n : ℕ) (digest : Bytes) : Type 0 where
    pub header : Header
    pub body : Bytes
    pub target : Resolved
    pub reached : Reaches t sys sha c header body target
    pub declared_size : header.size ≡ pos n
    pub whole : n ≤ length body
    pub device : t.Device
    pub at_finalize : found ≡ some device
    pub on_disk : segment (stored device) 0 n ≡ take n body
    pub its_digest : digest ≡ sha (take n body)
    pub declared_digest : header.sha256 ≡ digest

  -- The same of the bytes that the buffered reader handed on: it was started on a device that holds the
  -- image, complete and with the digest declared.
  pub record IsComplete (found : Option t.Device) (n : ℕ) (digest : Bytes) : Type 0 where
    pub header : Header
    pub body : Bytes
    pub target : Resolved
    pub reached : Reaches t sys sha c header body target
    pub declared_size : header.size ≡ pos n
    pub whole : n ≤ length (flat (c.deliver body))
    pub device : t.Device
    pub at_finalize : found ≡ some device
    pub on_disk : segment (stored device) 0 n ≡ take n (flat (c.deliver body))
    pub its_digest : digest ≡ sha (take n (flat (c.deliver body)))
    pub declared_digest : header.sha256 ≡ digest

  -- a statement on the line OK
  unfoldable pub OkMeans : t.Device → Option t.Device → Reply → Type 0
  OkMeans d f (installed n digest) = IsDelivered f n digest
  OkMeans d f _ = Unit

  -- A statement on the line FAIL: finalize.sh failed on a complete image, or it was not started, and the
  -- superblock is wiped or nothing was written.
  unfoldable pub FailMeans : t.Device → t.Device → Option t.Device → Reply → Type 0
  FailMeans before d f (failed (write_failed e)) = IsClosed t honest d × (f ≡ none)
  FailMeans before d f (failed (finalize_failed out)) =
      (n : ℕ) × (digest : Bytes) × IsComplete f n digest
  FailMeans before d f (failed _) = (d ≡ before) × (f ≡ none)
  FailMeans before d f _ = Unit

  sha256_declared : (v got : Bytes) → IsSha256 v → (v ≡ []) ⊎ (v ≡ got) → v ≡ got
  sha256_declared v got hex (inr same) = same
  sha256_declared v got hex (inl none_declared) =
      let len : length v ≡ 0 = ap (λ (b : Bytes). length b) none_declared in
      absurd (omega (arith, len, hex.0))

  progress_free :
      (before d : t.Device) (f : Option t.Device) (r : Reply)
      → IsProgress r
      → OkMeans d f r × FailMeans before d f r
  unfolding OkMeans FailMeans is_end
  progress_free before d f (installed n digest) h = absurd cc
  progress_free before d f (failed r) h = absurd cc
  progress_free before d f _ h = (tt, tt)

  refused_early :
      (before : t.Device) (r : Refusal)
      → is_early r ≡ true
      → FailMeans before before none (failed r)
  unfolding FailMeans is_early
  refused_early before (write_failed e) h = absurd cc
  refused_early before (finalize_failed out) h = absurd cc
  refused_early before _ h = (refl, refl)

  completed :
      (before : t.Device) (h : Header) (body : Bytes) (target : Resolved)
      → Reaches t sys sha c h body target
      → (w : Written) → (written t sys sha c h body before).result ≡ ok w
      → IsComplete (some (written t sys sha c h body before).device) w.size w.sha256
  unfolding size_of
  completed before h body target reached w won =
      let src : Source = record { chunks = c.deliver body; ending = c.ending } in
      let valid = parse_header-IsValid c.incoming reached.parsed in
      let (m, is_m, big, small) = valid.size_in_range in
      let (large, long, disk, made, agreed) =
        write_correct t honest sha src (size_of h.size) h.sha256 before won in
      let size : w.size ≡ size_of h.size = ap (λ (x : Written). x.size) made in
      let image : take (size_of h.size) (flat src.chunks) ≡ take w.size (flat src.chunks) =
        rw size refl in
      record {
        header = h;
        body = body;
        target = target;
        reached = reached;
        declared_size = rw (size, is_m) refl;
        whole = rw size long;
        device = (written t sys sha c h body before).device;
        at_finalize = refl;
        on_disk = rw size (disk ∙ image ∙ ap (λ (k : ℕ). take k (flat src.chunks)) size);
        its_digest = ap (λ (x : Written). x.sha256) made ∙ ap sha image;
        declared_digest = sha256_declared h.sha256 w.sha256 valid.sha256_hex agreed;
      }

  -- what was handed on is what arrived
  IsComplete-IsDelivered :
      IsWhole c
      → (f : Option t.Device) (n : ℕ) (digest : Bytes) → IsComplete f n digest
      → IsDelivered f n digest
  unfolding IsWhole
  IsComplete-IsDelivered whole f n digest r =
      let same : flat (c.deliver r.body) ≡ r.body = whole r.body in
      record {
        header = r.header;
        body = r.body;
        target = r.target;
        reached = r.reached;
        declared_size = r.declared_size;
        whole = subst (λ (b : Bytes). n ≤ length b) same r.whole;
        device = r.device;
        at_finalize = r.at_finalize;
        on_disk = r.on_disk ∙ ap (take n) same;
        its_digest = r.its_digest ∙ ap (λ (b : Bytes). sha (take n b)) same;
        declared_digest = r.declared_digest;
      }

  -- Of a session in which the buffered reader hands on all that arrived, on a device that stores what it
  -- is given, whatever else happens: a line OK is sent only if what arrived is a valid header and then an
  -- image of the size and the digest that it declares, if userdata was found and is not smaller,
  -- and if the device that finalize.sh was started on held exactly the image; the line tells its
  -- size and digest.
  pub serve-OkMeans :
      IsWhole c
      → (tab : Tablet t)
      → let s = serve t sys sha c tab in All (OkMeans s.tablet.device s.finalized) s.replies
  unfolding OkMeans
  serve-OkMeans whole tab = serve-Holds t sys sha OkMeans c tab.device ends tab refl
    where
      ends : AtEnds t sys sha OkMeans c tab.device
      ends = record {
        on_progress = λ d f r progress. (progress_free tab.device d f r progress).0;
        on_refusal = λ r early. tt;
        on_error = λ h body target reached e lost. tt;
        on_unfinished = λ h body target reached w won d out. tt;
        on_success = λ h body target reached w won d.
            IsComplete-IsDelivered whole _ w.size w.sha256
              (completed tab.device h body target reached w won);
      }

  wiped :
      ((d : t.Device) → (scrub t d).0 ≡ none)
      → (before : t.Device) (h : Header) (body : Bytes) (target : Resolved)
      → Reaches t sys sha c h body target
      → {e : WriteError} → (written t sys sha c h body before).result ≡ err e
      → IsClosed t honest (written t sys sha c h body before).device
  unfolding size_of mib
  wiped wipes before h body target reached lost =
      let src : Source = record { chunks = c.deliver body; ending = c.ending } in
      let valid = parse_header-IsValid c.incoming reached.parsed in
      let (m, is_m, big, small) = valid.size_in_range in
      let size : size_of h.size ≡ m = ap size_of is_m in
      elim (write_fails-IsClosed t honest sha wipes src (size_of h.size) h.sha256 before lost) [
        | inl (short, untouched) ↦ absurd (omega (arith, short, size, big))
        | inr closed ↦ closed
      ]

  -- On a device that stores what it is given and takes every scrub, the line FAIL says what is on the
  -- device. Where finalize.sh failed, the header was valid, userdata was found and is not smaller than the
  -- image, and the device that finalize.sh was started on held the declared number of the bytes that the
  -- buffered reader handed on, with the declared digest. On every other failure finalize.sh was not started,
  -- and the device is as it was before the session or, where Write failed, its first MiB, the superblock,
  -- is zeros.
  pub serve-FailMeans :
      ((d : t.Device) → (scrub t d).0 ≡ none)
      → (tab : Tablet t)
      → let s = serve t sys sha c tab in
        All (FailMeans tab.device s.tablet.device s.finalized) s.replies
  unfolding FailMeans
  serve-FailMeans wipes tab =
      serve-Holds t sys sha (FailMeans tab.device) c tab.device ends tab refl
    where
      ends : AtEnds t sys sha (FailMeans tab.device) c tab.device
      ends = record {
        on_progress = λ d f r progress. (progress_free tab.device d f r progress).1;
        on_refusal = refused_early tab.device;
        on_error = λ h body target reached e lost.
            (wiped wipes tab.device h body target reached lost, refl);
        on_unfinished = λ h body target reached w won d out.
            (w.size, w.sha256, completed tab.device h body target reached w won);
        on_success = λ h body target reached w won d. tt;
      }
