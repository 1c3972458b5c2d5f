-- ===== src/Wire/Rounds.antt =====
-- ParseHeader of wire.go taken apart: a round of its loop, and the parts of a success.
use dc_1_pmos.Base.{
  ℕ, zero, suc, ◌+◌, ◌≡◌, ◌≢◌, ◌∙◌, [], ◌∷◌, some, inl, inr, Bytes, length, bytes_equal,
  bytes_equal_iff, List-cases, Result, ok, err, ◌>>=◌, >>=-Passes, Bool-cases, Option-cases,
}
use dc_1_pmos.Std.Strings.{read_line, trim_right, is_crlf}
use dc_1_pmos.Wire.{
  HeaderError, no_magic, bad_magic, Header, Fields, no_fields, no_line, magic, accept_line,
  read_fields, finish, parse_header,
}

-- The loop, one round at a time.
pub data Round (fuel : ℕ) (f : Fields) (s : Bytes) (out : Fields × Bytes) : Type 0 where
  blank :
      (line rest : Bytes)
      → read_line s ≡ some (line, rest)
      → trim_right is_crlf line ≡ []
      → out ≡ (f, rest)
      → Round fuel f s out
  field :
      (line rest : Bytes) (f' : Fields)
      → read_line s ≡ some (line, rest)
      → accept_line f (trim_right is_crlf line) ≡ ok f'
      → read_fields fuel f' rest ≡ ok out
      → Round fuel f s out

pub read_fields-Round :
    (fuel : ℕ) (f : Fields) (s : Bytes) (out : Fields × Bytes)
    → read_fields (suc fuel) f s ≡ ok out
    → Round fuel f s out
unfolding read_fields
read_fields-Round fuel f s out h = elim (Option-cases (read_line s)) [
  | inl n ↦ let bad : err no_line ≡ ok out = rw (n, read_fields) at h in cc
  | inr ((line, rest), e) ↦ elim (List-cases (trim_right is_crlf line)) [
    | inl t ↦
        let h' : ◌≡◌ {A = Result HeaderError (Fields × Bytes)} (ok (f, rest)) (ok out) =
          rw t at (rw (e, read_fields) at h) in
        blank line rest e t cc
    | inr (c, cs, t) ↦
        let h' = rw t at (rw (e, read_fields) at h) in
        let (f', a, b) = >>=-Passes (accept_line f (c ∷ cs)) (λ f'. read_fields fuel f' rest) h' in
        field line rest f' e (rw t a) b
  ]
]

pub record Parsed (s : Bytes) (h : Header) (body : Bytes) : Type 0 where
  pub line : Bytes
  pub rest : Bytes
  pub fields : Fields
  pub first : read_line s ≡ some (line, rest)
  pub is_magic : trim_right is_crlf line ≡ magic
  pub read : read_fields (length rest + 1) no_fields rest ≡ ok (fields, body)
  pub finished : finish fields ≡ ok h

pub parse_header-Parsed :
    (s : Bytes) {h : Header} {body : Bytes} → parse_header s ≡ ok (h, body) → Parsed s h body
unfolding parse_header
parse_header-Parsed s {h} {body} p = elim (Option-cases (read_line s)) [
  | inl n ↦
      let bad : ◌≡◌ {A = Result HeaderError (Header × Bytes)} (err no_magic) (ok (h, body)) =
        rw (n, parse_header) at p in
      cc
  | inr ((line, rest), e) ↦
      let q = rw (e, parse_header) at p in
      elim (Bool-cases (bytes_equal (trim_right is_crlf line) magic)) [
        | inr ne ↦
            let bad : ◌≡◌ {A = Result HeaderError (Header × Bytes)} (err bad_magic) (ok (h, body)) =
              rw ne at q in
            cc
        | inl eq ↦
            let q' = rw eq at q in
            let ((f, b), r, q'') =
              >>=-Passes (read_fields (length rest + 1) no_fields rest)
                (λ (f, body'). finish f >>= λ h'. ok (h', body')) q' in
            let (h', fin, same) = >>=-Passes (finish f) (λ h'. ok (h', b)) q'' in
            let same' : ◌≡◌ {A = Result HeaderError (Header × Bytes)} (ok (h', b)) (ok (h, body)) =
              same in
            record {
              line = line;
              rest = rest;
              fields = f;
              first = e;
              is_magic = (bytes_equal_iff _ magic).0 eq;
              read = r ∙ cc;
              finished = fin ∙ cc;
            }
      ]
]

pub read_fields-zero :
    (f : Fields) (s : Bytes) (out : Fields × Bytes) → read_fields zero f s ≢ ok out
unfolding read_fields
read_fields-zero f s out h = cc
