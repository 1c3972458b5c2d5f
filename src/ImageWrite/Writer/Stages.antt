-- ===== src/ImageWrite/Writer/Stages.antt =====
-- Write of imagewrite.go stage by stage: what a stage hands on to the next, and what must hold
-- if it ends well.
use dc_1_pmos.Base.{
  ℕ, ◌-◌, ◌≤◌, ◌<◌, ◌≡◌, ◌⊎◌, refl, List, [], ◌∷◌, none, some, inl, inr, arith, ltb, ◌==◌, ==_iff,
  Bytes, bytes_equal, bytes_equal_iff, ltb→lt, Bool-cases, Option-cases, Result-cases, ok, err,
}
use dc_1_pmos.ImageWrite.Reader.{ReadError, Source, Stream, Read, read_full}
use dc_1_pmos.ImageWrite.Target.{Target}
use dc_1_pmos.ImageWrite.Writer.{
  mib, WriteError, too_small, scrub_failed, window_read, Stage, receiving_image, sha_verified,
  verifying_written, Copied, Outcome, scrub, copy_at, read_back, abandon, verify, commit,
  write_body, write,
}

module _ (t : Target) (sha : Bytes → Bytes) where
  open t use {Device, write_at, sync, sync_all, drop_caches}

  -- The device as the read-back finds it.
  abbrev pub flushed : Device → Device
  flushed d = drop_caches (sync_all d)

  -- Every stage either gives up by `abandon` or goes on to the next one.
  pub record Abandoned (o : Outcome t) : Type 0 where
    pub why : WriteError
    pub stages : List Stage
    pub at : Device
    pub same : o ≡ abandon t sha why stages at

  gave_up :
      (why : WriteError) (stages : List Stage) (at : Device)
      → Abandoned (abandon t sha why stages at)
  gave_up why stages at = record { why = why; stages = stages; at = at; same = refl }

  pub record Verified (size : ℕ) (got : Bytes) (d : Device) (o : Outcome t) : Type 0 where
    pub back : Bytes
    pub read : read_back t size size 0 [] (flushed d) ≡ ok back
    pub same : sha back ≡ got
    pub done : o ≡ record {
      result = ok (record { size = size; sha256 = got });
      stages = receiving_image ∷ sha_verified ∷ verifying_written ∷ [];
      device = flushed d;
    }

  pub verify-cases :
      (size : ℕ) (got : Bytes) (d : Device)
      → Verified size got d (verify t sha size got d) ⊎ Abandoned (verify t sha size got d)
  unfolding verify
  verify-cases size got d = elim (Result-cases (read_back t size size 0 [] (flushed d))) [
    | inr (x, e) ↦ rw (e, verify) (inr (gave_up _ _ _))
    | inl (back, e) ↦ elim (Bool-cases (bytes_equal (sha back) got)) [
      | inr ne ↦ rw (e, verify) (rw ne (inr (gave_up _ _ _)))
      | inl eq ↦ inl (record {
        back = back;
        read = e;
        same = (bytes_equal_iff (sha back) got).0 eq;
        done = rw (e, verify) (rw eq);
      })
    ]
  ]

  pub record Committed (size : ℕ) (first got : Bytes) (d : Device) (o : Outcome t) : Type 0 where
    pub wrote : (write_at first 0 d).0 ≡ none
    pub synced : (sync (write_at first 0 d).1).0 ≡ none
    pub next : o ≡ verify t sha size got (sync (write_at first 0 d).1).1

  pub commit-cases :
      (size : ℕ) (first got : Bytes) (d : Device)
      → Committed size first got d (commit t sha size first got d)
        ⊎ Abandoned (commit t sha size first got d)
  unfolding commit
  commit-cases size first got d = elim (Option-cases (write_at first 0 d).0) [
    | inr (x, e) ↦ rw (e, commit) (inr (gave_up _ _ _))
    | inl w ↦ elim (Option-cases (sync (write_at first 0 d).1).0) [
      | inr (x, e) ↦ rw (w, commit) (rw e (inr (gave_up _ _ _)))
      | inl s ↦ inl (record { wrote = w; synced = s; next = rw (w, commit) (rw s) })
    ]
  ]

  module _ (size : ℕ) (want first : Bytes) (s : Stream) (d : Device) where
    abbrev pub copied : Copied t
    copied = copy_at t (size - mib) mib (size - mib) 0 s d

    pub record BodyWritten (o : Outcome t) : Type 0 where
      pub fine : copied.error ≡ none
      pub count : copied.done ≡ size - mib
      pub agreed : (want ≡ []) ⊎ (sha copied.stream.hashed ≡ want)
      pub next : o ≡ commit t sha size first (sha copied.stream.hashed) copied.device

    abbrev got : Bytes
    got = sha copied.stream.hashed

    body_written :
        copied.error ≡ none
        → copied.done ≡ size - mib
        → (want ≡ []) ⊎ (got ≡ want)
        → BodyWritten (commit t sha size first got copied.device)
    body_written a b c = record { fine = a; count = b; agreed = c; next = refl }

    pub write_body-cases :
        BodyWritten (write_body t sha size want first s d)
        ⊎ Abandoned (write_body t sha size want first s d)
    unfolding write_body
    write_body-cases = elim (Option-cases copied.error) [
      | inr (x, e) ↦ rw (e, write_body) (inr (gave_up _ _ _))
      | inl fine ↦ elim (Bool-cases (copied.done == size - mib)) [
        | inr short ↦ rw (fine, write_body) (rw short (inr (gave_up _ _ _)))
        | inl full ↦
            let count = (==_iff copied.done (size - mib)).0 full in
            elim (Bool-cases (bytes_equal want [])) [
              | inl none_declared ↦
                  let agreed = inl ((bytes_equal_iff want []).0 none_declared) in
                  rw (fine, write_body)
                    (rw full (rw none_declared (inl (body_written fine count agreed))))
              | inr declared ↦ elim (Bool-cases (bytes_equal got want)) [
                | inr wrong ↦
                    rw (fine, write_body) (rw full (rw declared (rw wrong (inr (gave_up _ _ _)))))
                | inl right ↦
                    let agreed = inr ((bytes_equal_iff got want).0 right) in
                    rw (fine, write_body)
                      (rw full (rw declared (rw right (inl (body_written fine count agreed)))))
              ]
            ]
      ]
    ]

  abbrev pub window : Source → ℕ → Read
  window src size = read_full mib (record { source = src; left = size; hashed = [] })

  pub record Started (src : Source) (size : ℕ) (want : Bytes) (d : Device) (o : Outcome t)
      : Type 0 where
    pub large : mib ≤ size
    pub scrubbed : (scrub t d).0 ≡ none
    pub fine : (window src size).error ≡ none
    pub next :
        o
        ≡ write_body t sha size want (window src size).bytes (window src size).stream (scrub t d).1

  -- Write refused before it gave anything to the stages behind it.
  pub data Refused (src : Source) (size : ℕ) (d : Device) (o : Outcome t) : Type 0 where
    small :
        size < mib
        → o ≡ record { result = err too_small; stages = []; device = d }
        → Refused src size d o
    unscrubbed :
        (x : ℕ)
        → (scrub t d).0 ≡ some x
        → o ≡ record { result = err (scrub_failed x); stages = []; device = (scrub t d).1 }
        → Refused src size d o
    no_window :
        (x : ReadError)
        → mib ≤ size
        → (scrub t d).0 ≡ none
        → o ≡ record { result = err (window_read x); stages = []; device = (scrub t d).1 }
        → Refused src size d o

  pub write-cases :
      (src : Source) (size : ℕ) (want : Bytes) (d : Device)
      → Started src size want d (write t sha src size want d)
        ⊎ Refused src size d (write t sha src size want d)
  unfolding write
  write-cases src size want d = elim (Bool-cases (ltb size mib)) [
    | inl tiny ↦ inr (small (ltb→lt size mib tiny) (rw tiny))
    | inr large ↦ elim (Option-cases (scrub t d).0) [
      | inr (x, e) ↦ inr (unscrubbed x e (rw large (rw e)))
      | inl s ↦ elim (Option-cases (window src size).error) [
        | inr (x, e) ↦ inr (no_window x (ground arith) s (rw large (rw s (rw e))))
        | inl fine ↦ inl (record {
          large = ground arith;
          scrubbed = s;
          fine = fine;
          next = rw large (rw s (rw fine));
        })
      ]
    ]
  ]
