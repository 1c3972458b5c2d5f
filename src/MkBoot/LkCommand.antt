-- ===== src/MkBoot/LkCommand.antt =====
-- cmdLKWrap of main.go behind the flag parser.
use dc_1_pmos.Base.{
  ℕ, ◌+◌, ◌%◌, ◌≤◌, ◌≡◌, refl, sym, ap, ◌∙◌, Bool, ◌||◌, ◌++◌, Option, none, some, inl, inr, arith,
  ltb, ◌==◌, if◌then◌else◌, Bytes, length, length-append, Result, ok, err, u32_mod, Bool-cases,
  Option-cases,
}
use dc_1_pmos.MkBoot.Command.{Host}
use dc_1_pmos.MkBoot.Lk.{LkError, lk_wrap, lk_layout, lk_hdr_size, lk_wrap_layout}

pub record LkFlags : Type 0 where
  pub input : Bytes
  pub out : Bytes
  pub name : Bytes
  pub load_addr : ℕ
  pub ext_header : Bool

pub data LkWrapError : Type 0 where
  missing_paths lk_unread lk_unwritten : LkWrapError
  bad_name : LkError → LkWrapError

-- the file that was written, and how the command ended: the number of bytes that it reports
pub record LkOutcome : Type 0 where
  pub written : Option Bytes
  pub result : Result LkWrapError ℕ

unfoldable pub write_lk : Host → LkFlags → Result LkError Bytes → LkOutcome
write_lk h f (err e) = record { written = none; result = err (bad_name e) }
write_lk h f (ok img) =
    if h.write_file f.out img
    then record { written = some img; result = ok (length img) }
    else record { written = none; result = err lk_unwritten }

unfoldable pub wrap_read : Host → LkFlags → Option Bytes → LkOutcome
wrap_read h f none = record { written = none; result = err lk_unread }
wrap_read h f (some payload) =
    write_lk h f (lk_wrap payload f.name (f.load_addr % u32_mod) f.ext_header)

unfoldable pub cmd_lk_wrap : Host → LkFlags → LkOutcome
cmd_lk_wrap h f =
    if length f.input == 0 || length f.out == 0
    then record { written = none; result = err missing_paths }
    else wrap_read h f (h.read_file f.input)

-- What was read, and the file as the comment of lkWrap draws it.
pub record IsWrapped (h : Host) (f : LkFlags) (n : ℕ) : Type 0 where
  pub payload : Bytes
  pub read : h.read_file f.input ≡ some payload
  pub short_name : length f.name ≤ 31
  pub file :
      (cmd_lk_wrap h f).written
      ≡ some (
          lk_layout (length payload % u32_mod) f.name (f.load_addr % u32_mod) f.ext_header
          ++ payload)
  pub size : n ≡ lk_hdr_size + length payload

-- the steps of cmdLKWrap that a success has passed
record IsThrough (h : Host) (f : LkFlags) (n : ℕ) : Type 0 where
  payload : Bytes
  img : Bytes
  read : h.read_file f.input ≡ some payload
  wrapped : lk_wrap payload f.name (f.load_addr % u32_mod) f.ext_header ≡ ok img
  file : (cmd_lk_wrap h f).written ≡ some img
  size : n ≡ length img

write_lk-ok :
    (h : Host) (f : LkFlags) (r : Result LkError Bytes) {n : ℕ}
    → (write_lk h f r).result ≡ ok n
    → (img : Bytes) × (r ≡ ok img) × ((write_lk h f r).written ≡ some img) × (n ≡ length img)
unfolding write_lk
write_lk-ok h f (err e) e' = cc
write_lk-ok h f (ok img) {n} e = elim (Bool-cases (h.write_file f.out img)) [
  | inl stored ↦
      let same : ◌≡◌ {A = Result LkWrapError ℕ} (ok (length img)) (ok n) = (rw stored at e) in
      let size : n ≡ length img = cc in (img, refl, rw stored, size)
  | inr lost ↦ absurd (ground arith)
]

cmd_lk_wrap-IsThrough :
    (h : Host) (f : LkFlags) {n : ℕ} → (cmd_lk_wrap h f).result ≡ ok n → IsThrough h f n
unfolding cmd_lk_wrap wrap_read
cmd_lk_wrap-IsThrough h f {n} e = elim (Bool-cases (length f.input == 0 || length f.out == 0)) [
  | inl missing ↦ absurd (ground arith)
  | inr present ↦ elim (Option-cases (h.read_file f.input)) [
    | inl unread ↦
        let bad : cmd_lk_wrap h f ≡ record { written = none; result = err lk_unread } =
          rw (present, unread, wrap_read) in
        let clash : ◌≡◌ {A = Result LkWrapError ℕ} (err lk_unread) (ok n) =
          sym (ap (λ (x : LkOutcome). x.result) bad) ∙ e in
        cc
    | inr (payload, read) ↦
        let r = lk_wrap payload f.name (f.load_addr % u32_mod) f.ext_header in
        let opens : cmd_lk_wrap h f ≡ write_lk h f r = rw (present, read, wrap_read) in
        let ends : (write_lk h f r).result ≡ ok n =
          sym (ap (λ (x : LkOutcome). x.result) opens) ∙ e in
        let (img, wrapped, written, size) = write_lk-ok h f r ends in
        record {
          payload = payload;
          img = img;
          read = read;
          wrapped = wrapped;
          file = ap (λ (x : LkOutcome). x.written) opens ∙ written;
          size = size;
        }
  ]
]

lk_wrap-short :
    (payload name : Bytes) (load_addr : ℕ) (ext_header : Bool) {img : Bytes}
    → lk_wrap payload name load_addr ext_header ≡ ok img
    → length name ≤ 31
unfolding lk_wrap
lk_wrap-short payload name load_addr ext_header e = elim (Bool-cases (ltb 31 (length name))) [
  | inl long ↦ absurd (ground arith)
  | inr short ↦ ground arith
]

-- Where cmdLKWrap reports a number of bytes, the payload was read, the name has at most 31 characters,
-- and the file that was written is the header that the comment of lkWrap draws and the payload behind
-- it, 512 bytes more than the payload, which is the number reported.
pub cmd_lk_wrap-IsWrapped :
    (h : Host) (f : LkFlags) {n : ℕ} → (cmd_lk_wrap h f).result ≡ ok n → IsWrapped h f n
cmd_lk_wrap-IsWrapped h f e =
    let t = cmd_lk_wrap-IsThrough h f e in
    let load = f.load_addr % u32_mod in
    let short = lk_wrap-short t.payload f.name load f.ext_header t.wrapped in
    let (layout, head) = lk_wrap_layout t.payload f.name load f.ext_header short in
    let whole : Bytes =
      lk_layout (length t.payload % u32_mod) f.name load f.ext_header ++ t.payload in
    let both : ◌≡◌ {A = Result LkError Bytes} (ok t.img) (ok whole) = sym t.wrapped ∙ layout in
    let same : t.img ≡ whole = cc in
    record {
      payload = t.payload;
      read = t.read;
      short_name = short;
      file = t.file ∙ ap (λ (b : Bytes). some b) same;
      size =
          t.size
          ∙ ap length same
          ∙ length-append (lk_layout (length t.payload % u32_mod) f.name load f.ext_header)
              t.payload
          ∙ ap (λ (k : ℕ). k + length t.payload) head;
    }
