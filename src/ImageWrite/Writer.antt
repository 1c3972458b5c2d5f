-- ===== src/ImageWrite/Writer.antt =====
-- Write, copyAt, readBackSHA and scrub of imagewrite.go, over any target and any digest.
-- The size is a number: an int64 below zero takes the branch of a size below one MiB.
pub mod Copy
pub mod Ends
pub mod ReadBack
pub mod Stages
pub mod Safety
pub mod Success
pub mod Correct
pub mod Succeeds
pub mod Halts
use dc_1_pmos.Base.{
  ℕ, zero, suc, ◌+◌, ◌-◌, ◌*◌, ◌^◌, min, Bool, true, false, not, ◌&&◌, ◌||◌, List, [], ◌∷◌, ◌++◌,
  Option, none, some, ltb, ◌==◌, if◌then◌else◌, Bytes, length, replicate, bytes_equal, Result, ok,
  err,
}
use dc_1_pmos.ImageWrite.Reader.{ReadError, eof, unexpected_eof, Source, Stream, Read, read_full}
use dc_1_pmos.ImageWrite.Target.{Target}

-- the held-back superblock window, MiB
unfoldable pub mib : ℕ
mib = 1048576

-- `4<<20`, the length of the buffers
unfoldable pub buf_len : ℕ
buf_len = 4194304

-- `stuck` stands for a loop that does not end.
pub data LoopError : Type 0 where
  read_failed : ReadError → LoopError
  write_failed : ℕ → LoopError
  stuck : LoopError

pub data WriteError : Type 0 where
  too_small : WriteError
  scrub_failed : ℕ → WriteError
  window_read : ReadError → WriteError
  body_failed : LoopError → WriteError
  short_image : ℕ → WriteError
  sha_mismatch : WriteError
  superblock_write : ℕ → WriteError
  sync_failed : ℕ → WriteError
  read_back_failed : LoopError → WriteError
  read_back_mismatch : WriteError

pub data Stage : Type 0 where
  receiving_image sha_verified verifying_written : Stage

-- Result
pub record Written : Type 0 where
  pub size : ℕ
  pub sha256 : Bytes

-- io.EOF and io.ErrUnexpectedEOF end the loop of copyAt without an error.
pub copy_end : ReadError → Option LoopError
copy_end eof = none
copy_end unexpected_eof = none
copy_end e = some (read_failed e)

module _ (t : Target) where
  open t use {Device, write_at, read_at, sync, sync_all, drop_caches}

  pub record Copied : Type 0 where
    pub done : ℕ
    pub error : Option LoopError
    pub stream : Stream
    pub device : Device

  -- What Write returns, the stages that it reported, and the device as it leaves it.
  pub record Outcome : Type 0 where
    pub result : Result WriteError Written
    pub stages : List Stage
    pub device : Device

  pub scrub : Device → Option ℕ × Device
  scrub d =
      let (e, d') = write_at (replicate mib 0) 0 d in
      elim e [ some x ↦ (some x, d') | none ↦ sync d' ]

  -- `if n > 0 { … }` of copyAt: the new count, the error of WriteAt, and the device
  pub store_chunk : ℕ → ℕ → Bytes → Device → Option ℕ × ℕ × Device
  store_chunk offset done [] d = (none, done, d)
  store_chunk offset done (b ∷ bs) d =
      let (e, d') = write_at (b ∷ bs) (offset + done) d in
      elim e [ some x ↦ (some x, done, d') | none ↦ (none, done + length (b ∷ bs), d') ]

  -- the loop of copyAt, with `fuel` rounds at most
  pub copy_at : ℕ → ℕ → ℕ → ℕ → Stream → Device → Copied
  unfolding store_chunk copy_end
  copy_at zero offset want done s d = record {
    done = done;
    error = if ltb done want then some stuck else none;
    stream = s;
    device = d;
  }
  copy_at (suc fuel) offset want done s d =
      let r = read_full (min buf_len (want - done)) s in
      let (e, done', d') = store_chunk offset done r.bytes d in
      let more = copy_at fuel offset want done' r.stream d' in
      if not (ltb done want)
      then record { done = done; error = none; stream = s; device = d }
      else elim e [
        | some x ↦ record {
          done = done';
          error = some (write_failed x);
          stream = r.stream;
          device = d';
        }
        | none ↦ elim r.error [
          | some x ↦ record { done = done'; error = copy_end x; stream = r.stream; device = d' }
          | none ↦ more
        ]
      ]

  -- readBackSHA, up to the digest: the bytes that its hasher was given
  pub read_back : ℕ → ℕ → ℕ → Bytes → Device → Result LoopError Bytes
  read_back zero size done acc d = if ltb done size then err stuck else ok acc
  read_back (suc fuel) size done acc d =
      let (bs, e) = read_at (min buf_len (size - done)) done d in
      let more = read_back fuel size (done + length bs) (acc ++ bs) d in
      if not (ltb done size) then ok acc else elim e [
        | none ↦ more
        | some eof ↦ if done + length bs == size then ok (acc ++ bs) else err (read_failed eof)
        | some x ↦ err (read_failed x)
      ]

  module _ (sha : Bytes → Bytes) where
    -- `_ = scrub(dst)` before an error is returned
    pub abandon : WriteError → List Stage → Device → Outcome
    abandon e stages d = record { result = err e; stages = stages; device = (scrub d).1 }

    -- Write from the read-back on
    pub verify : ℕ → Bytes → Device → Outcome
    unfolding abandon
    verify size got d =
        let stages = receiving_image ∷ sha_verified ∷ verifying_written ∷ [] in
        let d' = drop_caches (sync_all d) in
        elim (read_back size size 0 [] d') [
          | err e ↦ abandon (read_back_failed e) stages d'
          | ok back ↦
              if not (bytes_equal (sha back) got)
              then abandon read_back_mismatch stages d'
              else record {
                result = ok (record { size = size; sha256 = got });
                stages = stages;
                device = d';
              }
        ]

    -- Write from the superblock on, once the digest of what was received is accepted
    pub commit : ℕ → Bytes → Bytes → Device → Outcome
    unfolding abandon verify
    commit size first got d =
        let stages = receiving_image ∷ sha_verified ∷ [] in
        let (e, d') = write_at first 0 d in
        let (e', d'') = sync d' in
        elim e [
          | some x ↦ abandon (superblock_write x) stages d'
          | none ↦ elim e' [
            | some x ↦ abandon (sync_failed x) stages d''
            | none ↦ verify size got d''
          ]
        ]

    -- Write from the body on, with the superblock window held back in `first`
    pub write_body : ℕ → Bytes → Bytes → Stream → Device → Outcome
    unfolding abandon commit
    write_body size want first s d =
        let stages = receiving_image ∷ [] in
        let c = copy_at (size - mib) mib (size - mib) 0 s d in
        let got = sha c.stream.hashed in
        elim c.error [
          | some e ↦ abandon (body_failed e) stages c.device
          | none ↦
              if not (c.done == size - mib)
              then abandon (short_image c.done) stages c.device
              else if not (bytes_equal want []) && not (bytes_equal got want)
              then abandon sha_mismatch stages c.device
              else commit size first got c.device
        ]

    unfoldable pub write : Source → ℕ → Bytes → Device → Outcome
    unfolding write_body scrub
    write src size want d =
        let (e, d') = scrub d in
        let r = read_full mib (record { source = src; left = size; hashed = [] }) in
        if ltb size mib
        then record { result = err too_small; stages = []; device = d }
        else elim e [
          | some x ↦ record { result = err (scrub_failed x); stages = []; device = d' }
          | none ↦ elim r.error [
            | some x ↦ record { result = err (window_read x); stages = []; device = d' }
            | none ↦ write_body size want r.bytes r.stream d'
          ]
        ]
