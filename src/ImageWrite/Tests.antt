-- ===== src/ImageWrite/Tests.antt =====
-- A device in memory, runs of imagewrite.go on it, and the theorems at concrete inputs.
use dc_1_pmos.Base.{
  ℕ, ◌+◌, ◌≤◌, ◌<◌, ◌≡◌, ◌⊎◌, refl, Bytes, [], ◌∷◌, ◌++◌, inl, arith, none, length, take, replicate,
  length-replicate, length-append, ok, err,
}
use dc_1_pmos.ImageWrite.Reader.{Source, flat, fill, read_full, eof}
use dc_1_pmos.ImageWrite.Target.{Target, IsHonest, IsReliable, segment, overwrite}
use dc_1_pmos.ImageWrite.Target.Contents.{length-segment}
use dc_1_pmos.ImageWrite.Writer.{
  mib, Written, write, window_read, receiving_image, sha_verified, verifying_written,
}
use dc_1_pmos.ImageWrite.Writer.Safety.{write_fails-IsClosed}
use dc_1_pmos.ImageWrite.Writer.Correct.{write_correct}
use dc_1_pmos.ImageWrite.Writer.Succeeds.{scrub_reliable, write_succeeds}
use dc_1_pmos.ImageWrite.Writer.Halts.{write-Halts, Halts}

-- Contents by offset; a device with no end, on which no call fails.
abbrev memory : Target
memory = record {
  Device = ℕ → ℕ;
  write_at = λ bs off f. (none, overwrite f bs off);
  read_at = λ n off f. (segment f off n, none);
  sync = λ f. (none, f);
  sync_all = λ f. f;
  drop_caches = λ f. f;
}

memory-IsHonest : IsHonest memory
memory-IsHonest = record {
  stored = λ f. f;
  write_stores = λ bs off f h. refl;
  read_returns = λ n off f h e. refl;
  read_fills = λ n off f h. length-segment f off n;
  read_bounded = λ n off f. omega (arith, length-segment f off n);
  sync_keeps = λ f. refl;
  sync_all_keeps = λ f. refl;
  drop_caches_keeps = λ f. refl;
}

memory-IsReliable : IsReliable memory
memory-IsReliable = record { writes = λ bs off f. refl; syncs = λ f. refl; reads = λ n off f. refl }

-- a digest that keeps the first two bytes
abbrev digest : Bytes → Bytes
digest = take 2

abbrev blank : ℕ → ℕ
blank i = 9

-- one MiB and three bytes, in two chunks, and a byte behind the image
abbrev source : Source
source = record { chunks = replicate mib 7 ∷ (1 ∷ 2 ∷ 3 ∷ 4 ∷ []) ∷ []; ending = eof }

abbrev undeclared : Bytes
undeclared = []

abbrev written : Written
written = record { size = mib + 3; sha256 = digest (take (mib + 3) (flat source.chunks)) }

source_long : mib + 3 ≤ length (flat source.chunks)
source_long =
    rw
      (
        length-append {A = ℕ} (replicate mib 7) ((1 ∷ 2 ∷ 3 ∷ 4 ∷ []) ++ []),
        length-replicate {A = ℕ} mib 7,
      )
      (omega arith)

write_succeeds_example :
    ((write memory digest source (mib + 3) [] blank).result ≡ ok written)
    × ((write memory digest source (mib + 3) [] blank).stages
        ≡ receiving_image ∷ sha_verified ∷ verifying_written ∷ [])
write_succeeds_example =
    write_succeeds memory digest source (mib + 3) [] blank memory-IsHonest memory-IsReliable
      (omega arith) source_long (inl refl)

write_correct_example :
    (mib ≤ mib + 3)
    × (mib + 3 ≤ length (flat source.chunks))
    × (segment (write memory digest source (mib + 3) [] blank).device 0 (mib + 3)
        ≡ take (mib + 3) (flat source.chunks))
    × (written ≡ record { size = mib + 3; sha256 = digest (take (mib + 3) (flat source.chunks)) })
    × ((undeclared ≡ []) ⊎ (undeclared ≡ written.sha256))
unfolding memory-IsHonest
write_correct_example =
    write_correct memory memory-IsHonest digest source (mib + 3) [] blank write_succeeds_example.0

-- the connection closes before the first byte
abbrev closed : Source
closed = record { chunks = []; ending = eof }

closed_fails : (write memory digest closed mib [] blank).result ≡ err (window_read eof)
unfolding write mib read_full
closed_fails = refl

write_fails-IsClosed_example :
    ((mib < mib) × ((write memory digest closed mib [] blank).device ≡ blank))
    ⊎ (segment (write memory digest closed mib [] blank).device 0 mib ≡ replicate mib 0)
unfolding memory-IsHonest
write_fails-IsClosed_example =
    write_fails-IsClosed memory memory-IsHonest digest
      (λ d. scrub_reliable memory digest d memory-IsReliable) closed mib [] blank closed_fails

write-Halts_example : Halts memory memory-IsHonest digest (write memory digest closed mib [] blank)
write-Halts_example = write-Halts memory memory-IsHonest digest closed mib [] blank

-- The window ends inside the second chunk, whose last byte is left for the next read.
fill_cuts : (fill eof 3 ((1 ∷ 2 ∷ []) ∷ (3 ∷ 4 ∷ []) ∷ [])).rest ≡ (4 ∷ []) ∷ []
unfolding fill
fill_cuts = refl
