-- ===== src/Wire/RoundTrip.antt =====
-- What the host sends, and what ParseHeader of wire.go makes of it. The header's lines are those
-- of the format's description at the top of wire.go.
use dc_1_pmos.Base.{
  ℕ, suc, ◌+◌, ◌-◌, ◌≤◌, ◌<◌, ◌≡◌, ◌≢◌, refl, ap, ◌∙◌, Bool, true, false, [], ◌∷◌, ◌++◌, Option,
  none, some, arith, Bytes, codes, length, All, All-append, IsByte, bytes_equal, bytes_equal_iff,
  ok, ◌>>=◌, ltb-false,
}
use dc_1_pmos.Std.Strings.{read_line, trim_right}
use dc_1_pmos.Std.Strings.Laws.{IsPlain, read_line-append, trim_line, cut-append}
use dc_1_pmos.Std.Strconv.{pos, int64_limit, decimal}
use dc_1_pmos.Std.Strconv.RoundTrip.{IsDigit, decimal-IsDigit, parse_int-decimal}
use dc_1_pmos.Std.Base64.{encode}
use dc_1_pmos.Std.Base64.RoundTrip.{decode-encode, encode-IsPlain}
use dc_1_pmos.Wire.{
  Fields, no_fields, magic, min_image_bytes, is_hex, accept_field, accept_line, read_fields, finish,
  parse_header,
}
use dc_1_pmos.Wire.Valid.{IsSha256, is_sha256_iff}

-- `key=value` and its newline, in front of what follows.
abbrev pub header_line : Bytes → Bytes → Bytes → Bytes
header_line key value rest = key ++ (b'=' ∷ value) ++ (b'\n' ∷ rest)

-- The last line: answers, or none for an unprovisioned install.
abbrev pub choice_line : Option Bytes → Bytes → Bytes
choice_line none rest = header_line (codes "unprovisioned") (codes "1") rest
choice_line (some answers) rest = header_line (codes "answers") (encode answers) rest

-- A session as the host sends it: the header, and the body behind it.
abbrev pub session : ℕ → Bytes → Option Bytes → Bytes → Bytes
session n sha choice body =
    magic
    ++ (b'\n'
        ∷ header_line (codes "size") (decimal n)
            (header_line (codes "sha256") sha (choice_line choice (b'\n' ∷ body))))

abbrev pub chosen : Option Bytes → Bytes
chosen none = []
chosen (some answers) = answers

abbrev pub is_none : Option Bytes → Bool
is_none none = true
is_none (some answers) = false

-- Answers, if they are given, are bytes and at least one.
abbrev pub IsChoice : Option Bytes → Type 0
IsChoice none = Unit {0}
IsChoice (some answers) = All IsByte answers × (answers ≢ [])

-- One round of the loop on a line that is put together from a key and a value.
read_fields_line :
    (fuel : ℕ) (f : Fields) (k : ℕ) (ks value rest : Bytes)
    → All IsPlain (k ∷ ks)
    → All (λ c. c ≢ b'=') (k ∷ ks)
    → All IsPlain value
    → read_fields (suc fuel) f (header_line (k ∷ ks) value rest)
      ≡ (accept_field f (k ∷ ks) value >>= λ f'. read_fields fuel f' rest)
unfolding read_fields accept_line
read_fields_line fuel f k ks value rest plain key vplain =
    let whole : All IsPlain ((k ∷ ks) ++ (b'=' ∷ value)) =
      All-append IsPlain (k ∷ ks) (b'=' ∷ value) plain (refl, vplain) in
    let r = read_line-append ((k ∷ ks) ++ (b'=' ∷ value)) rest whole in
    let t = trim_line ((k ∷ ks) ++ (b'=' ∷ value)) whole in
    let c = cut-append b'=' (k ∷ ks) value key in
    rw (r, read_fields) (rw t (rw (c, accept_line) refl))

digits-IsPlain : (xs : Bytes) → All IsDigit xs → All IsPlain xs
digits-IsPlain [] h = tt
digits-IsPlain (x ∷ xs) h = (ground arith, digits-IsPlain xs h.1)

hex-IsPlain : (xs : Bytes) → All (λ c. is_hex c ≡ true) xs → All IsPlain xs
hex-IsPlain [] h = tt
hex-IsPlain (x ∷ xs) h = (ground arith, hex-IsPlain xs h.1)

-- The loop ends at the blank line.
read_fields_blank :
    (fuel : ℕ) (f : Fields) (body : Bytes) → read_fields (suc fuel) f (b'\n' ∷ body) ≡ ok (f, body)
unfolding read_fields read_line trim_right
read_fields_blank fuel f body = refl

abbrev sized : ℕ → Fields
sized n = record {
  header = record { size = pos n; sha256 = []; answers = []; unprovisioned = false };
  saw_size = true;
  saw_sha256 = false;
}

abbrev digested : ℕ → Bytes → Fields
digested n sha = record {
  header = record { size = pos n; sha256 = sha; answers = []; unprovisioned = false };
  saw_size = true;
  saw_sha256 = true;
}

abbrev complete : ℕ → Bytes → Option Bytes → Fields
complete n sha choice = record {
  header = record {
    size = pos n;
    sha256 = sha;
    answers = chosen choice;
    unprovisioned = is_none choice;
  };
  saw_size = true;
  saw_sha256 = true;
}

accept_size :
    (n : ℕ) → n < int64_limit → accept_field no_fields (codes "size") (decimal n) ≡ ok (sized n)
unfolding accept_field bytes_equal
accept_size n h = rw (parse_int-decimal n h) refl

accept_sha256 :
    (n : ℕ) (sha : Bytes)
    → IsSha256 sha
    → accept_field (sized n) (codes "sha256") sha ≡ ok (digested n sha)
unfolding accept_field bytes_equal
accept_sha256 n sha h = rw ((is_sha256_iff sha).1 h) refl

accept_answers :
    (n : ℕ) (sha answers : Bytes)
    → All IsByte answers
    → accept_field (digested n sha) (codes "answers") (encode answers)
      ≡ ok (complete n sha (some answers))
unfolding accept_field bytes_equal
accept_answers n sha answers h = rw (decode-encode answers h) refl

accept_unprovisioned :
    (n : ℕ) (sha : Bytes)
    → accept_field (digested n sha) (codes "unprovisioned") (codes "1") ≡ ok (complete n sha none)
unfolding accept_field bytes_equal
accept_unprovisioned n sha = refl

finish-complete :
    (n : ℕ) (sha : Bytes) (choice : Option Bytes)
    → min_image_bytes ≤ n
    → IsChoice choice
    → finish (complete n sha choice) ≡ ok (complete n sha choice).header
unfolding finish
finish-complete n sha none h c = rw (ltb-false n min_image_bytes h)
finish-complete n sha (some []) h c = absurd (c.1 refl)
finish-complete n sha (some (a ∷ as')) h c = rw (ltb-false n min_image_bytes h)

read_fields_size :
    (fuel n : ℕ) (rest : Bytes)
    → n < int64_limit
    → read_fields (suc fuel) no_fields (header_line (codes "size") (decimal n) rest)
      ≡ read_fields fuel (sized n) rest
read_fields_size fuel n rest h =
    read_fields_line fuel no_fields b's' (codes "ize") (decimal n) rest (ground arith)
      (ground arith) (digits-IsPlain (decimal n) (decimal-IsDigit n))
    ∙ rw (accept_size n h)

read_fields_sha256 :
    (fuel n : ℕ) (sha rest : Bytes)
    → IsSha256 sha
    → read_fields (suc fuel) (sized n) (header_line (codes "sha256") sha rest)
      ≡ read_fields fuel (digested n sha) rest
read_fields_sha256 fuel n sha rest h =
    read_fields_line fuel (sized n) b's' (codes "ha256") sha rest (ground arith) (ground arith)
      (hex-IsPlain sha h.1)
    ∙ rw (accept_sha256 n sha h)

read_fields_choice :
    (fuel n : ℕ) (sha : Bytes) (choice : Option Bytes) (rest : Bytes)
    → IsChoice choice
    → read_fields (suc fuel) (digested n sha) (choice_line choice rest)
      ≡ read_fields fuel (complete n sha choice) rest
read_fields_choice fuel n sha none rest c =
    read_fields_line fuel (digested n sha) b'u' (codes "nprovisioned") (codes "1") rest
      (ground arith) (ground arith) (ground arith)
    ∙ rw (accept_unprovisioned n sha)
read_fields_choice fuel n sha (some answers) rest c =
    read_fields_line fuel (digested n sha) b'a' (codes "nswers") (encode answers) rest
      (ground arith) (ground arith) (encode-IsPlain answers c.0)
    ∙ rw (accept_answers n sha answers c.0)

-- The header's lines behind the first, read from the start.
read_session :
    (fuel n : ℕ) (sha : Bytes) (choice : Option Bytes) (body : Bytes)
    → n < int64_limit
    → IsSha256 sha
    → IsChoice choice
    → read_fields (suc (suc (suc (suc fuel)))) no_fields (
        header_line
          (codes "size")
          (decimal n)
          (header_line (codes "sha256") sha (choice_line choice (b'\n' ∷ body))))
      ≡ ok (complete n sha choice, body)
read_session fuel n sha choice body fits hex c =
    read_fields_size _ n _ fits
    ∙ read_fields_sha256 _ n sha _ hex
    ∙ read_fields_choice _ n sha choice _ c
    ∙ read_fields_blank fuel (complete n sha choice) body

-- For every size of at least 8 MiB that an int64 holds, every digest of 64 hexadecimal digits, and
-- answers or none, ParseHeader makes of the host's session the header that was sent, and leaves
-- the body, whatever bytes it holds, exactly from its first byte on.
pub parse_header-session :
    (n : ℕ) (sha : Bytes) (choice : Option Bytes) (body : Bytes)
    → min_image_bytes ≤ n
    → n < int64_limit
    → IsSha256 sha
    → IsChoice choice
    → parse_header (session n sha choice body)
      ≡ ok (
        record {
          size = pos n;
          sha256 = sha;
          answers = chosen choice;
          unprovisioned = is_none choice;
        },
        body,
      )
unfolding parse_header
parse_header-session n sha choice body large fits hex c =
    let rest =
      header_line (codes "size") (decimal n)
        (header_line (codes "sha256") sha (choice_line choice (b'\n' ∷ body))) in
    let line = read_line-append magic rest (ground arith) in
    let first = trim_line magic (ground arith) in
    let fuel : length rest + 1 ≡ suc (suc (suc (suc (length rest - 3)))) = omega arith in
    let fields : read_fields (length rest + 1) no_fields rest ≡ ok (complete n sha choice, body) =
      ap (λ (k : ℕ). read_fields k no_fields rest) fuel
      ∙ read_session (length rest - 3) n sha choice body fits hex c in
    rw (line, parse_header)
      (rw (first) (
        rw ((bytes_equal_iff magic magic).1 refl)
          (rw fields (rw (finish-complete n sha choice large c)))))
