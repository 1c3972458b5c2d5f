-- ===== src/ImageWrite/Target.antt =====
-- The destination of imagewrite.go's Write: its interface Target (io.WriterAt, io.ReaderAt and
-- Sync), and the two calls into the kernel that Write makes beside it. What implements it, a
-- block device under Linux, is not code of the repository and so a parameter.
pub mod Contents
use dc_1_pmos.Base.{
  ℕ, zero, suc, ◌+◌, ◌-◌, ◌≤◌, ◌≡◌, ◌⊎◌, Bool, List, [], ◌∷◌, ◌&&◌, Option, none, some, ltb, leb,
  if◌then◌else◌, Bytes, length, get_or,
}
use dc_1_pmos.ImageWrite.Reader.{ReadError, eof}

pub record Target : Type 1 where
  pub Device : Type 0
  pub write_at : Bytes → ℕ → Device → Option ℕ × Device
  -- `read_at n off`: at most `n` bytes from `off` on
  pub read_at : ℕ → ℕ → Device → Bytes × Option ReadError
  pub sync : Device → Option ℕ × Device
  -- syscall.Sync()
  pub sync_all : Device → Device
  -- writing 3 to /proc/sys/vm/drop_caches
  pub drop_caches : Device → Device

-- The `n` bytes from `off` on, of contents given by offset.
abbrev pub segment : (ℕ → ℕ) → ℕ → ℕ → Bytes
segment f off zero = []
segment f off (suc n) = f off ∷ segment f (suc off) n

abbrev pub overwrite : (ℕ → ℕ) → Bytes → ℕ → ℕ → ℕ
overwrite f bs off i = if leb off i && ltb i (off + length bs) then get_or bs (i - off) 0 else f i

-- What io.WriterAt, io.ReaderAt and fsync document of a device that stores what it is given:
-- a write without error stores its bytes and nothing else, a read without error returns the
-- bytes asked for and never more than those, and neither a flush nor a dropped cache changes what is stored.
pub record IsHonest (t : Target) : Type 1 where
  pub stored : t.Device → ℕ → ℕ
  pub write_stores :
      (bs : Bytes) (off : ℕ) (d : t.Device)
      → (t.write_at bs off d).0 ≡ none
      → stored (t.write_at bs off d).1 ≡ overwrite (stored d) bs off
  pub read_returns :
      (n off : ℕ) (d : t.Device)
      → ((t.read_at n off d).1 ≡ none) ⊎ ((t.read_at n off d).1 ≡ some eof)
      → length (t.read_at n off d).0 ≡ n
      → (t.read_at n off d).0 ≡ segment (stored d) off n
  pub read_fills :
      (n off : ℕ) (d : t.Device) → (t.read_at n off d).1 ≡ none → length (t.read_at n off d).0 ≡ n
  pub read_bounded : (n off : ℕ) (d : t.Device) → length (t.read_at n off d).0 ≤ n
  pub sync_keeps : (d : t.Device) → stored (t.sync d).1 ≡ stored d
  pub sync_all_keeps : (d : t.Device) → stored (t.sync_all d) ≡ stored d
  pub drop_caches_keeps : (d : t.Device) → stored (t.drop_caches d) ≡ stored d

-- A device on which no call fails.
pub record IsReliable (t : Target) : Type 0 where
  pub writes : (bs : Bytes) (off : ℕ) (d : t.Device) → (t.write_at bs off d).0 ≡ none
  pub syncs : (d : t.Device) → (t.sync d).0 ≡ none
  pub reads : (n off : ℕ) (d : t.Device) → (t.read_at n off d).1 ≡ none
