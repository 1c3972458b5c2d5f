-- ===== src/Wire/Valid.antt =====
-- What ParseHeader of wire.go has checked of a header that it returns.
use dc_1_pmos.Base.{
  ℕ, zero, suc, ◌≤◌, ◌<◌, ◌≡◌, ◌≢◌, ◌⊎◌, ◌↔◌, refl, ap, Bool, true, false, [], ◌∷◌, Option, none,
  some, inl, inr, arith, Bytes, codes, length, bytes_equal, bytes_equal_iff, All, subst, Result, ok,
  err, Bool-cases, Option-cases, ltb,
}
use dc_1_pmos.Std.Strings.{trim_left, cut}
use dc_1_pmos.Std.Strconv.{ℤ, pos, negsuc, int64_limit, parse_int}
use dc_1_pmos.Std.Strconv.Range.{IsInt64, parse_int-IsInt64}
use dc_1_pmos.Std.Base64
use dc_1_pmos.Wire.Rounds.{blank, field, read_fields-Round, read_fields-zero, parse_header-Parsed}
use dc_1_pmos.Wire.{
  HeaderError, Header, Fields, no_fields, malformed, min_image_bytes, is_hex, is_sha256, with_size,
  with_answers, accept_field, accept_line, read_fields, finish_answers, finish, parse_header,
}

abbrev pub IsSha256 : Bytes → Type 0
IsSha256 v = (length v ≡ 64) × All (λ c. is_hex c ≡ true) v

trim_left_hex : (v : Bytes) → trim_left is_hex v ≡ [] → All (λ c. is_hex c ≡ true) v
unfolding trim_left
trim_left_hex [] h = tt
trim_left_hex (c ∷ cs) h = elim (Bool-cases (is_hex c)) [
  | inl e ↦ (e, trim_left_hex cs (rw e at h))
  | inr e ↦ let bad : c ∷ cs ≡ [] = rw e at h in cc
]

pub trim_left-All : (v : Bytes) → All (λ c. is_hex c ≡ true) v → trim_left is_hex v ≡ []
unfolding trim_left
trim_left-All [] h = refl
trim_left-All (c ∷ cs) h = rw h.0 (trim_left-All cs h.1)

pub is_sha256_iff : (v : Bytes) → (is_sha256 v ≡ true) ↔ IsSha256 v
unfolding is_sha256
is_sha256_iff v = (to, from)
  where
    to : is_sha256 v ≡ true → IsSha256 v
    to h = (ground arith, trim_left_hex v ((bytes_equal_iff _ []).0 (ground arith)))

    from : IsSha256 v → is_sha256 v ≡ true
    from h = rw (h.0, trim_left-All v h.1) ((bytes_equal_iff [] []).1 refl)

-- What holds of the fields read so far.
record IsSound (f : Fields) : Type 0 where
  size_fits : IsInt64 f.header.size
  sha256_checked : f.saw_sha256 ≡ true → is_sha256 f.header.sha256 ≡ true

abbrev Sound : Result HeaderError Fields → Type 0
Sound (ok f) = IsSound f
Sound (err e) = Unit {0}

with_size-Sound :
    (f : Fields) (o : Option ℤ)
    → IsSound f
    → ((z : ℤ) → o ≡ some z → IsInt64 z)
    → Sound (with_size f o)
unfolding with_size
with_size-Sound f none s fits = tt
with_size-Sound f (some z) s fits = record {
  size_fits = fits z refl;
  sha256_checked = s.sha256_checked;
}

with_answers-Sound : (f : Fields) (o : Option Bytes) → IsSound f → Sound (with_answers f o)
unfolding with_answers
with_answers-Sound f none s = tt
with_answers-Sound f (some a) s = record {
  size_fits = s.size_fits;
  sha256_checked = s.sha256_checked;
}

accept_field-Sound : (f : Fields) (key value : Bytes) → IsSound f → Sound (accept_field f key value)
unfolding accept_field
accept_field-Sound f key value s = elim (Bool-cases (bytes_equal key (codes "size"))) [
  | inl k ↦ rw k (with_size-Sound f (parse_int value) s (parse_int-IsInt64 value))
  | inr n ↦ elim (Bool-cases (bytes_equal key (codes "sha256"))) [
    | inl k ↦ elim (Bool-cases (is_sha256 value)) [
      | inl good ↦
          rw n (rw k (rw good (record { size_fits = s.size_fits; sha256_checked = λ _. good })))
      | inr bad ↦ rw n (rw k (rw bad tt))
    ]
    | inr n' ↦ elim (Bool-cases (bytes_equal key (codes "answers"))) [
      | inl k ↦ rw n (rw n' (rw k (with_answers-Sound f (Base64.decode value) s)))
      | inr n'' ↦ elim (Bool-cases (bytes_equal key (codes "unprovisioned"))) [
        | inl k ↦ rw n (
            rw n' (
              rw n''
                (rw k (record { size_fits = s.size_fits; sha256_checked = s.sha256_checked }))))
        | inr u ↦ rw n (rw n' (rw n'' (rw u tt)))
      ]
    ]
  ]
]

accept_line-IsSound :
    (f f' : Fields) (line : Bytes) → IsSound f → accept_line f line ≡ ok f' → IsSound f'
unfolding accept_line
accept_line-IsSound f f' line s h = elim (Option-cases (cut b'=' line)) [
  | inl n ↦ let bad : err malformed ≡ ok f' = rw (n, accept_line) at h in cc
  | inr ((key, value), e) ↦
      let h' : accept_field f key value ≡ ok f' = rw (e, accept_line) at h in
      subst Sound h' (accept_field-Sound f key value s)
]

read_fields-IsSound :
    (fuel : ℕ) (f f' : Fields) (s body : Bytes)
    → IsSound f
    → read_fields fuel f s ≡ ok (f', body)
    → IsSound f'
read_fields-IsSound zero f f' s body sound h = absurd (read_fields-zero f s (f', body) h)
read_fields-IsSound (suc fuel) f f' s body sound h =
    elim (read_fields-Round fuel f s (f', body) h) [
      | blank line rest e t same ↦
          let same' : f' ≡ f = ap (λ (p : Fields × Bytes). p.0) same in rw same' sound
      | field line rest g e a more ↦
          read_fields-IsSound fuel g f' rest body (accept_line-IsSound f g _ sound a) more
    ]

-- A size of at least 8 MiB in an int64, a digest of 64 lower-case hexadecimal digits, and answers
-- exactly if the install is provisioned.
pub record IsValid (h : Header) : Type 0 where
  pub size_in_range : (n : ℕ) × (h.size ≡ pos n) × (min_image_bytes ≤ n) × (n < int64_limit)
  pub sha256_hex : IsSha256 h.sha256
  pub answers_given :
      ((h.unprovisioned ≡ true) × (h.answers ≡ [])) ⊎ ((h.unprovisioned ≡ false) × (h.answers ≢ []))

abbrev Valid : Result HeaderError Header → Type 0
Valid (ok h) = IsValid h
Valid (err e) = Unit {0}

abbrev fields : ℤ → Bytes → Bytes → Bool → Bool → Bool → Fields
fields z sha a u w v = record {
  header = record { size = z; sha256 = sha; answers = a; unprovisioned = u };
  saw_size = w;
  saw_sha256 = v;
}

-- The checks in their order, each on the field that it looks at.
finish-Valid :
    (z : ℤ) (sha a : Bytes) (u w v : Bool)
    → IsInt64 z
    → (v ≡ true → is_sha256 sha ≡ true)
    → Valid (finish (fields z sha a u w v))
unfolding finish
finish-Valid z sha a u false v fits checked = tt
finish-Valid z sha a u true false fits checked = tt
finish-Valid (negsuc n) sha a u true true fits checked = tt
finish-Valid (pos n) sha a u true true fits checked = elim (Bool-cases (ltb n min_image_bytes)) [
  | inl small ↦ rw small tt
  | inr large ↦
      let range : min_image_bytes ≤ n = ground arith in
      rw large (answered n sha a u range fits ((is_sha256_iff sha).0 (checked refl)))
]
  where
    answered :
        (n : ℕ) (sha a : Bytes) (u : Bool)
        → min_image_bytes ≤ n
        → n < int64_limit
        → IsSha256 sha
        → Valid
            (finish_answers (record { size = pos n; sha256 = sha; answers = a; unprovisioned = u }))
    answered n sha a true range fits hex = record {
      size_in_range = (n, refl, range, fits);
      sha256_hex = hex;
      answers_given = inl (refl, refl);
    }
    answered n sha [] false range fits hex = tt
    answered n sha (b ∷ bs) false range fits hex = record {
      size_in_range = (n, refl, range, fits);
      sha256_hex = hex;
      answers_given = inr (refl, λ e. cc);
    }

-- Every header that ParseHeader returns is valid.
pub parse_header-IsValid :
    (s : Bytes) {h : Header} {body : Bytes} → parse_header s ≡ ok (h, body) → IsValid h
parse_header-IsValid s {h} {body} e =
    let p = parse_header-Parsed s e in
    let sound =
      read_fields-IsSound _ no_fields p.fields p.rest body
        (record { size_fits = omega arith; sha256_checked = λ q. cc }) p.read in
    let f = p.fields in
    subst Valid p.finished (
      finish-Valid f.header.size f.header.sha256 f.header.answers f.header.unprovisioned f.saw_size
        f.saw_sha256 sound.size_fits sound.sha256_checked)
