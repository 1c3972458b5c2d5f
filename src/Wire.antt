-- ===== src/Wire.antt =====
-- installer/gotools/internal/wire/wire.go: the header of a DC1-INSTALL-V1 session.
-- A bufio.Reader is the bytes that it has yet to deliver; the bytes that ParseHeader leaves in it
-- are the second part of its result. A nil slice of answers is an empty one.
mod Rounds
pub mod Valid
pub mod Body
pub mod RoundTrip
mod Tests
use dc_1_pmos.Base.{
  ℕ, zero, suc, ◌+◌, ◌*◌, ◌^◌, ◌≤◌, Bool, true, false, not, ◌&&◌, ◌||◌, List, [], ◌∷◌, ◌++◌, Option,
  none, some, ltb, leb, ◌==◌, if◌then◌else◌, Bytes, codes, length, bytes_equal, Result, ok, err,
  ◌>>=◌,
}
use dc_1_pmos.Std.Strings.{read_line, trim_right, trim_left, is_crlf, cut}
use dc_1_pmos.Std.Strconv.{ℤ, pos, negsuc, parse_int}
use dc_1_pmos.Std.Base64

-- `stuck` stands for a loop that does not end.
pub data HeaderError : Type 0 where
  no_magic bad_magic no_line malformed bad_size bad_sha256 bad_answers unknown_key : HeaderError
  missing_size missing_sha256 size_too_small missing_answers stuck : HeaderError

abbrev pub magic : Bytes
magic = codes "DC1-INSTALL-V1"

-- 8 << 20
abbrev pub min_image_bytes : ℕ
min_image_bytes = 8388608

pub record Header : Type 0 where
  pub size : ℤ
  pub sha256 : Bytes
  pub answers : Bytes
  pub unprovisioned : Bool

-- The header under construction, with the flags sawSize and sawSHA.
pub record Fields : Type 0 where
  pub header : Header
  pub saw_size : Bool
  pub saw_sha256 : Bool

abbrev pub no_fields : Fields
no_fields = record {
  header = record { size = pos 0; sha256 = []; answers = []; unprovisioned = false };
  saw_size = false;
  saw_sha256 = false;
}

abbrev pub is_hex : ℕ → Bool
is_hex c = (leb b'0' c && leb c b'9') || (leb b'a' c && leb c b'f')

-- `len(value) != 64 || strings.TrimLeft(value, "0123456789abcdef") != ""`, negated
unfoldable pub is_sha256 : Bytes → Bool
is_sha256 value = length value == 64 && bytes_equal (trim_left is_hex value) []

with_size : Fields → Option ℤ → Result HeaderError Fields
with_size f none = err bad_size
with_size f (some n) = ok (record f { header = record (f.header) { size = n }; saw_size = true })

with_answers : Fields → Option Bytes → Result HeaderError Fields
with_answers f none = err bad_answers
with_answers f (some a) = ok (record f { header = record (f.header) { answers = a } })

-- the switch on the key
unfoldable pub accept_field : Fields → Bytes → Bytes → Result HeaderError Fields
unfolding with_size with_answers
accept_field f key value =
    if bytes_equal key (codes "size")
    then with_size f (parse_int value)
    else if bytes_equal key (codes "sha256")
    then (if is_sha256 value
        then ok (record f { header = record (f.header) { sha256 = value }; saw_sha256 = true })
        else err bad_sha256)
    else if bytes_equal key (codes "answers")
    then with_answers f (Base64.decode value)
    else if bytes_equal key (codes "unprovisioned")
    then ok
        (record f { header = record (f.header) { unprovisioned = bytes_equal value (codes "1") } })
    else err unknown_key

unfoldable pub accept_line : Fields → Bytes → Result HeaderError Fields
accept_line f line = elim (cut b'=' line) [
  | none ↦ err malformed
  | some (key, value) ↦ accept_field f key value
]

-- the loop up to the blank line, with `fuel` rounds at most
unfoldable pub read_fields : ℕ → Fields → Bytes → Result HeaderError (Fields × Bytes)
read_fields zero f s = err stuck
read_fields (suc fuel) f s = elim (read_line s) [
  | none ↦ err no_line
  | some (line, rest) ↦ elim (trim_right is_crlf line) [
    | [] ↦ ok (f, rest)
    | c ∷ cs ↦ accept_line f (c ∷ cs) >>= λ f'. read_fields fuel f' rest
  ]
]

is_small : ℤ → Bool
is_small (pos n) = ltb n min_image_bytes
is_small (negsuc n) = true

no_answers : Bytes → Bool
no_answers [] = true
no_answers (b ∷ bs) = false

-- Answers are asked for unless the install is unprovisioned, which drops any that came.
pub finish_answers : Header → Result HeaderError Header
unfolding no_answers
finish_answers h =
    if h.unprovisioned
    then ok (record h { answers = [] })
    else if no_answers h.answers
    then err missing_answers
    else ok h

-- the checks behind the loop
unfoldable pub finish : Fields → Result HeaderError Header
unfolding is_small finish_answers
finish f =
    let h = f.header in
    if not f.saw_size
    then err missing_size
    else if not f.saw_sha256
    then err missing_sha256
    else if is_small h.size
    then err size_too_small
    else finish_answers h

unfoldable pub parse_header : Bytes → Result HeaderError (Header × Bytes)
parse_header s = elim (read_line s) [
  | none ↦ err no_magic
  | some (line, rest) ↦
      if not (bytes_equal (trim_right is_crlf line) magic)
      then err bad_magic
      else read_fields (length rest + 1) no_fields rest >>= λ (f, body).
          finish f >>= λ h. ok (h, body)
]
