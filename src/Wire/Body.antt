-- ===== src/Wire/Body.antt =====
-- Where ParseHeader of wire.go leaves the reader, and the end of its loop.
use dc_1_pmos.Base.{
  ℕ, zero, suc, ◌+◌, ◌<◌, ◌≡◌, ◌≢◌, ap, sym, ◌∙◌, [], ◌∷◌, ◌++◌, append_assoc, inl, inr, arith,
  Bytes, List, All, length, bytes_equal, ok, err, Result-cases, Bool-cases, Option-cases,
  List-cases,
}
use dc_1_pmos.Std.Strings.{read_line, trim_right, is_crlf, cut}
use dc_1_pmos.Std.Strings.Laws.{IsLine, read_line-IsLine, read_line_splits}
use dc_1_pmos.Wire.{
  stuck, Header, Fields, no_fields, magic, accept_field, accept_line, read_fields, finish,
  parse_header,
}
use dc_1_pmos.Wire.Rounds.{blank, field, read_fields-Round, read_fields-zero, parse_header-Parsed}

pub joined : List Bytes → Bytes
joined [] = []
joined (l ∷ ls) = l ++ joined ls

-- The text is the magic line, lines that are not blank, a blank one, and the body. A line ends at its first
-- newline; it is blank where nothing but ends of lines stands in it.
pub record IsCut (s body : Bytes) : Type 0 where
  pub first : Bytes
  pub lines : List Bytes
  pub last : Bytes
  pub whole : s ≡ first ++ (joined lines ++ (last ++ body))
  pub first_line : IsLine first
  pub are_lines : All IsLine lines
  pub last_line : IsLine last
  pub is_magic : trim_right is_crlf first ≡ magic
  pub none_blank : All (λ (l : Bytes). trim_right is_crlf l ≢ []) lines
  pub blank_last : trim_right is_crlf last ≡ []

-- the same behind the magic line
record IsFields (s body : Bytes) : Type 0 where
  lines : List Bytes
  last : Bytes
  whole : s ≡ joined lines ++ (last ++ body)
  are_lines : All IsLine lines
  last_line : IsLine last
  none_blank : All (λ (l : Bytes). trim_right is_crlf l ≢ []) lines
  blank_last : trim_right is_crlf last ≡ []

-- a line that is taken as a field is not blank
accept_line-ne-blank :
    (f : Fields) (line : Bytes) {g : Fields} → accept_line f line ≡ ok g → line ≢ []
unfolding accept_line cut
accept_line-ne-blank f [] h q = cc
accept_line-ne-blank f (c ∷ cs) h q = cc

read_fields-IsFields :
    (fuel : ℕ) (f : Fields) (s : Bytes) (out : Fields × Bytes)
    → read_fields fuel f s ≡ ok out
    → IsFields s out.1
unfolding joined
read_fields-IsFields zero f s out h = absurd (read_fields-zero f s out h)
read_fields-IsFields (suc fuel) f s out h = elim (read_fields-Round fuel f s out h) [
  | blank line rest e t same ↦ record {
    lines = [];
    last = line;
    whole =
        (read_line_splits s line rest e).0 ∙ ap (λ (o : Fields × Bytes). line ++ o.1) (sym same);
    are_lines = tt;
    last_line = read_line-IsLine s line rest e;
    none_blank = tt;
    blank_last = t;
  }
  | field line rest g e a more ↦
      let r = read_fields-IsFields fuel g rest out more in
      record {
        lines = line ∷ r.lines;
        last = r.last;
        whole =
            (read_line_splits s line rest e).0
            ∙ ap (λ (x : Bytes). line ++ x) r.whole
            ∙ sym (append_assoc line (joined r.lines) (r.last ++ out.1));
        are_lines = (read_line-IsLine s line rest e, r.are_lines);
        last_line = r.last_line;
        none_blank = (accept_line-ne-blank f (trim_right is_crlf line) a, r.none_blank);
        blank_last = r.blank_last;
      }
]

-- If ParseHeader returns a header, its input is the magic line, lines that are not blank, a blank line,
-- and then exactly the bytes that it leaves unread: the body begins behind the first blank line.
pub parse_header-IsCut :
    (s : Bytes) {h : Header} {body : Bytes} → parse_header s ≡ ok (h, body) → IsCut s body
parse_header-IsCut s {h} {body} e =
    let p = parse_header-Parsed s e in
    let r = read_fields-IsFields _ no_fields p.rest (p.fields, body) p.read in
    record {
      first = p.line;
      lines = r.lines;
      last = r.last;
      whole =
          (read_line_splits s p.line p.rest p.first).0 ∙ ap (λ (x : Bytes). p.line ++ x) r.whole;
      first_line = read_line-IsLine s p.line p.rest p.first;
      are_lines = r.are_lines;
      last_line = r.last_line;
      is_magic = p.is_magic;
      none_blank = r.none_blank;
      blank_last = r.blank_last;
    }

accept_line-ne-stuck : (f : Fields) (line : Bytes) → accept_line f line ≢ err stuck
unfolding accept_line accept_field
accept_line-ne-stuck f line h = ground arith

finish-ne-stuck : (f : Fields) → finish f ≢ err stuck
unfolding finish
finish-ne-stuck f h = ground arith

-- Every line takes at least its newline, so a round for each byte is more than enough.
read_fields-ne-stuck :
    (fuel : ℕ) (f : Fields) (s : Bytes) → length s < fuel → read_fields fuel f s ≢ err stuck
unfolding read_fields
read_fields-ne-stuck zero f s lt = absurd (omega arith)
read_fields-ne-stuck (suc fuel) f s lt = elim (Option-cases (read_line s)) [
  | inl n ↦ rw (n, read_fields) (λ q. cc)
  | inr ((line, rest), e) ↦ elim (List-cases (trim_right is_crlf line)) [
    | inl t ↦ rw (e, read_fields) (rw t (λ q. cc))
    | inr (c, cs, t) ↦ elim (Result-cases (accept_line f (c ∷ cs))) [
      | inr (x, a) ↦
          let live : x ≢ stuck = λ q. accept_line-ne-stuck f (c ∷ cs) (a ∙ ap err q) in
          rw (e, read_fields) (rw t (rw a (λ q. live (cc))))
      | inl (g, a) ↦
          let shorter = (read_line_splits s line rest e).1 in
          rw (e, read_fields) (rw t (rw a (read_fields-ne-stuck fuel g rest (omega arith))))
    ]
  ]
]

-- ParseHeader comes to an end on every input: the rounds that the model gives to its loop are enough.
pub parse_header-ne-stuck : (s : Bytes) → parse_header s ≢ err stuck
unfolding parse_header
parse_header-ne-stuck s = elim (Option-cases (read_line s)) [
  | inl n ↦ rw (n, parse_header) (λ q. cc)
  | inr ((line, rest), e) ↦ elim (Bool-cases (bytes_equal (trim_right is_crlf line) magic)) [
    | inr ne ↦ rw (e, parse_header) (rw ne (λ q. cc))
    | inl eq ↦ elim (Result-cases (read_fields (length rest + 1) no_fields rest)) [
      | inr (x, r) ↦
          let live : x ≢ stuck = λ q.
            read_fields-ne-stuck (length rest + 1) no_fields rest (omega arith) (r ∙ ap err q) in
          rw (e, parse_header) (rw eq (rw r (λ q. live (cc))))
      | inl ((f, b), r) ↦ elim (Result-cases (finish f)) [
        | inr (x, g) ↦
            let live : x ≢ stuck = λ q. finish-ne-stuck f (g ∙ ap err q) in
            rw (e, parse_header) (rw eq (rw r (rw g (λ q. live (cc)))))
        | inl (h, g) ↦ rw (e, parse_header) (rw eq (rw r (rw g (λ q. cc))))
      ]
    ]
  ]
]
