-- ===== src/Installd/Tests.antt =====
-- Sessions of installd.go on a device in memory.
use dc_1_pmos.Base.{
  ℕ, append-nil, ◌≤◌, ◌≡◌, refl, inr, true, false, [], ◌∷◌, none, some, Bytes, codes, length,
  length-replicate, replicate, ok, All, arith, bytes_equal,
}
use dc_1_pmos.Std.Strings.{trim_right, trim_space, trim_left, split_lines}
use dc_1_pmos.Std.Strconv.{pos, parse_int, parse_uint, digits_value}
use dc_1_pmos.Wire.{Header, min_image_bytes, parse_header}
use dc_1_pmos.Wire.RoundTrip.{session, parse_header-session}
use dc_1_pmos.Partition.{
  Sysfs, Resolved, resolve_userdata, resolve_named, resolve_match, matching, has_name,
  has_part_name, has_line, is_cr, parse_size, check_sectors, int64_of,
}
use dc_1_pmos.ImageWrite.Reader.{eof}
use dc_1_pmos.ImageWrite.Target.{Target, IsHonest, IsReliable, segment, overwrite}
use dc_1_pmos.ImageWrite.Target.Contents.{length-segment}
use dc_1_pmos.ImageWrite.Writer.Succeeds.{scrub_reliable, write_succeeds}
use dc_1_pmos.ImageWrite.Writer.{mib, write, receiving_image, sha_verified, verifying_written}
use dc_1_pmos.Installd.{
  Connection, Tablet, System, serve, less, size_of, host_connected, target_is, writing,
  image_verified, failed, finalize_failed, take_lock, unlock, receive, provision, keep_answers,
  check_answers, install, use_target, check_size, store_image, report_write, after_write,
  after_finalize, with_lines, first_line, until_newline, in_gib,
}
use dc_1_pmos.Installd.Replies.{EndsOnce, serve-EndsOnce}
use dc_1_pmos.Installd.Through.{Reaches}
use dc_1_pmos.Installd.Delivered.{IsWhole, OkMeans, FailMeans, serve-OkMeans, serve-FailMeans}
use dc_1_pmos.Installd.Succeeds.{IsInstalled, Accepts, serve_succeeds}

-- Contents by offset; a device with no end, on which no call fails.
abbrev memory : Target
memory = record {
  Device = ℕ → ℕ;
  write_at = λ bs off f. (none, overwrite f bs off);
  read_at = λ n off f. (segment f off n, none);
  sync = λ f. (none, f);
  sync_all = λ f. f;
  drop_caches = λ f. f;
}

memory-IsHonest : IsHonest memory
memory-IsHonest = record {
  stored = λ f. f;
  write_stores = λ bs off f h. refl;
  read_returns = λ n off f h e. refl;
  read_fills = λ n off f h. length-segment f off n;
  read_bounded = λ n off f. omega (arith, length-segment f off n);
  sync_keeps = λ f. refl;
  sync_all_keeps = λ f. refl;
  drop_caches_keeps = λ f. refl;
}

memory-IsReliable : IsReliable memory
memory-IsReliable = record { writes = λ bs off f. refl; syncs = λ f. refl; reads = λ n off f. refl }

abbrev hex : Bytes
hex = codes "0123456789abcdef0123456789abcdef0123456789abcdef0123456789abcdef"

-- a digest by the length alone
abbrev digest : Bytes → Bytes
digest b = hex

abbrev image_bytes : ℕ
image_bytes = 8388608

image : ℕ → Bytes
image n = replicate n 7

body : Bytes
body = image image_bytes

length-image : (n : ℕ) → n ≤ length (image n)
unfolding image
length-image n = rw (length-replicate {A = ℕ} n 7) (omega arith)

body_long : image_bytes ≤ length body
unfolding body
body_long = length-image image_bytes

abbrev header : Header
header = record {
  size = pos min_image_bytes;
  sha256 = hex;
  answers = codes "DC1_USER=a\n";
  unprovisioned = false;
}

-- the session in one read
abbrev connection : Connection
connection = record {
  incoming = session min_image_bytes hex (some (codes "DC1_USER=a\n")) body;
  ending = eof;
  deliver = λ b. b ∷ [];
}

abbrev sysfs : Sysfs
sysfs = record {
  uevents = (codes "sdc63", some (codes "MAJOR=8\nPARTNAME=userdata\n")) ∷ [];
  size_file = λ dev. some (codes "67108864\n");
}

abbrev target : Resolved
target = record { device = codes "/dev/sdc63"; sectors = 67108864; bytes = pos 34359738368 }

abbrev system : System memory
system = record {
  sysfs = sysfs;
  store_answers = λ answers file. (some answers, true);
  validate = λ file. none;
  opens = λ dev. true;
  finalize = λ dev bare file d. (none, d);
}

abbrev tablet : Tablet memory
tablet = record { locked = false; answers = none; device = λ i. 9 }

parsed : parse_header connection.incoming ≡ ok (header, body)
parsed =
    parse_header-session min_image_bytes hex (some (codes "DC1_USER=a\n")) body (omega arith)
      (omega arith) (refl, ground arith) (ground arith, λ e. cc)

resolved : resolve_userdata sysfs ≡ ok target
unfolding resolve_userdata resolve_named resolve_match matching has_name has_part_name has_line
    is_cr split_lines trim_right bytes_equal parse_size trim_space trim_left parse_int parse_uint
    digits_value check_sectors int64_of
resolved = refl

reached : Reaches memory system digest connection header body target
unfolding less
reached = record { parsed = parsed; resolved = resolved; fits = refl }

connection-IsWhole : IsWhole connection
unfolding IsWhole
connection-IsWhole b = append-nil b

accepted : Accepts memory system header none
unfolding Accepts
accepted = inr (refl, refl, refl)

serve_succeeds_example :
    IsInstalled memory system
      (size_of header.size)
      hex
      (serve memory system digest connection tablet)
unfolding size_of
serve_succeeds_example =
    serve_succeeds memory system digest connection connection-IsWhole memory-IsHonest
      memory-IsReliable (λ dev bare file d. refl) header body target reached refl body_long refl
      tablet refl accepted

serve-OkMeans_example :
    let s = serve memory system digest connection tablet in
    All
      (OkMeans memory memory-IsHonest system digest connection s.tablet.device s.finalized)
      s.replies
serve-OkMeans_example =
    serve-OkMeans memory memory-IsHonest system digest connection connection-IsWhole tablet

-- finalize.sh fails
abbrev unfinished : System memory
unfinished = record {
  sysfs = sysfs;
  store_answers = λ answers file. (some answers, true);
  validate = λ file. none;
  opens = λ dev. true;
  finalize = λ dev bare file d. (some (codes "resize2fs failed\n"), d);
}

written_fine :
    ((write memory digest
        (record { chunks = body ∷ []; ending = eof })
        image_bytes
        hex
        tablet.device).result
      ≡ ok (record { size = image_bytes; sha256 = hex }))
    × ((write memory digest
          (record { chunks = body ∷ []; ending = eof })
          image_bytes
          hex
          tablet.device).stages
        ≡ receiving_image ∷ sha_verified ∷ verifying_written ∷ [])
unfolding mib
written_fine =
    write_succeeds memory digest (record { chunks = body ∷ []; ending = eof }) image_bytes hex
      tablet.device memory-IsHonest memory-IsReliable (omega arith) (rw (append-nil body) body_long)
      (inr refl)

fails_at_the_end :
    (serve memory unfinished digest connection tablet).replies
    ≡ host_connected
      ∷ target_is (codes "/dev/sdc63") (pos 32)
      ∷ writing receiving_image
      ∷ writing sha_verified
      ∷ writing verifying_written
      ∷ image_verified
      ∷ failed (finalize_failed (codes "resize2fs failed"))
      ∷ []
unfolding serve take_lock unlock receive provision keep_answers check_answers install use_target
    check_size less store_image report_write after_write after_finalize with_lines size_of
    first_line until_newline in_gib
fails_at_the_end = rw parsed (rw resolved (rw written_fine.1 (rw written_fine.0)))

serve-FailMeans_example :
    let s = serve memory unfinished digest connection tablet in
    All
      (FailMeans memory memory-IsHonest unfinished digest connection tablet.device s.tablet.device
        s.finalized)
      s.replies
serve-FailMeans_example =
    serve-FailMeans memory memory-IsHonest unfinished digest connection
      (λ d. scrub_reliable memory digest d memory-IsReliable) tablet

-- another session holds the lock
abbrev locked_tablet : Tablet memory
locked_tablet = record { locked = true; answers = none; device = λ i. 9 }

serve-EndsOnce_example : EndsOnce (serve memory system digest connection locked_tablet).replies
serve-EndsOnce_example = serve-EndsOnce memory system digest connection locked_tablet
