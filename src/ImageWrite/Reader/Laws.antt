-- ===== src/ImageWrite/Reader/Laws.antt =====
-- io.ReadFull over the readers of Reader: the bytes depend on what the source delivers as a
-- whole, and not on how it cuts that into chunks.
use dc_1_pmos.Base.{
  ℕ, zero, suc, ◌+◌, ◌-◌, ◌≤◌, min, ◌≡◌, ◌≢◌, refl, ap, sym, ◌∙◌, Bool, true, false, List, [], ◌∷◌,
  ◌++◌, none, some, inl, inr, arith, ltb, leb, if◌then◌else◌, Bytes, length, take, drop,
  take-append_ge, take-append_le, drop-append_ge, drop-append_le, leb→le, le→leb, Bool-cases,
  length-append,
}
use dc_1_pmos.ImageWrite.Reader.{
  ReadError, eof, unexpected_eof, failed, flat, fill, full_error, Stream, Read, limit_error,
  read_full,
}

pub fill-bytes : (e : ReadError) (n : ℕ) (cs : List Bytes) → (fill e n cs).bytes ≡ take n (flat cs)
unfolding fill
fill-bytes e zero cs = refl
fill-bytes e (suc n) [] = refl
fill-bytes e (suc n) (c ∷ cs) = elim (Bool-cases (leb (length c) (suc n))) [
  | inl le ↦
      rw (le, take-append_ge c (flat cs) (suc n) (leb→le _ _ le))
        (ap (◌++◌ c) (fill-bytes e (suc n - length c) cs))
  | inr gt ↦ rw gt (sym (take-append_le c (flat cs) (suc n) (ground arith)))
]

pub fill-rest :
    (e : ReadError) (n : ℕ) (cs : List Bytes) → flat (fill e n cs).rest ≡ drop n (flat cs)
unfolding fill
fill-rest e zero cs = refl
fill-rest e (suc n) [] = refl
fill-rest e (suc n) (c ∷ cs) = elim (Bool-cases (leb (length c) (suc n))) [
  | inl le ↦
      rw (le, drop-append_ge c (flat cs) (suc n) (leb→le _ _ le))
        (fill-rest e (suc n - length c) cs)
  | inr gt ↦ rw gt (sym (drop-append_le c (flat cs) (suc n) (ground arith)))
]

leb_shift : (a b n : ℕ) → leb a n ≡ true → leb n (a + b) ≡ leb (n - a) b
leb_shift a b n h = ground arith

leb_within : (a b n : ℕ) → leb a n ≡ false → leb n (a + b) ≡ true
leb_within a b n h = ground arith

pub fill-error :
    (e : ReadError) (n : ℕ) (cs : List Bytes)
    → (fill e n cs).error ≡ (if leb n (length (flat cs)) then none else some e)
unfolding fill
fill-error e zero cs = ground arith
fill-error e (suc n) [] = ground arith
fill-error e (suc n) (c ∷ cs) = elim (Bool-cases (leb (length c) (suc n))) [
  | inl le ↦
      rw (le, length-append c (flat cs), leb_shift (length c) (length (flat cs)) (suc n) le)
        (fill-error e (suc n - length c) cs)
  | inr gt ↦ rw (gt, length-append c (flat cs), leb_within (length c) (length (flat cs)) (suc n) gt)
]

limit_full :
    (n left : ℕ) (bs : Bytes) (e : ReadError) (enough : Bool)
    → ltb left n ≡ false
    → full_error bs (limit_error n left (if enough then none else some e))
      ≡ (if enough then none else full_error bs (some e))
unfolding full_error limit_error
limit_full n left [] e true h = rw h
limit_full n left (b ∷ bs) e true h = rw h
limit_full n left bs e false h = refl

-- io.ReadFull of no more than the limit has left: the next bytes of the source, which the hasher
-- sees too; an error exactly if the source does not have that many.
pub record IsNext (n : ℕ) (s : Stream) (r : Read) : Type 0 where
  pub bytes_next : r.bytes ≡ take n (flat s.source.chunks)
  pub rest_next : flat r.stream.source.chunks ≡ drop n (flat s.source.chunks)
  pub hashed_next : r.stream.hashed ≡ s.hashed ++ take n (flat s.source.chunks)
  pub left_next : r.stream.left ≡ s.left - length (take n (flat s.source.chunks))
  pub ending_next : r.stream.source.ending ≡ s.source.ending
  pub error_next : r.error ≡ (
      if leb n (length (flat s.source.chunks))
      then none
      else full_error (take n (flat s.source.chunks)) (some s.source.ending))

pub read_full-IsNext : (n : ℕ) (s : Stream) → n ≤ s.left → IsNext n s (read_full n s)
unfolding read_full
read_full-IsNext n s h =
    let e : min n s.left ≡ n = omega arith in
    let nx : ltb s.left n ≡ false = ground arith in
    rw e (record {
      bytes_next = fill-bytes s.source.ending n s.source.chunks;
      rest_next = fill-rest s.source.ending n s.source.chunks;
      hashed_next = rw fill-bytes refl;
      left_next = rw fill-bytes refl;
      ending_next = refl;
      error_next =
          rw (fill-error, fill-bytes)
            (limit_full n s.left _ s.source.ending (leb n (length (flat s.source.chunks))) nx);
    })

full_error-ne-none : (bs : Bytes) (e : ReadError) → full_error bs (some e) ≢ none
unfolding full_error
full_error-ne-none [] e h = cc
full_error-ne-none (b ∷ bs) eof h = cc
full_error-ne-none (b ∷ bs) unexpected_eof h = cc
full_error-ne-none (b ∷ bs) (failed x) h = cc

-- A read without an error was of as many bytes as it asked for.
pub IsNext-long :
    (n : ℕ) (s : Stream) (r : Read)
    → IsNext n s r
    → r.error ≡ none
    → n ≤ length (flat s.source.chunks)
IsNext-long n s r nx e = elim (Bool-cases (leb n (length (flat s.source.chunks)))) [
  | inl le ↦ leb→le _ _ le
  | inr gt ↦
      let bad : full_error (take n (flat s.source.chunks)) (some s.source.ending) ≡ none =
        rw gt at (sym nx.error_next ∙ e) in
      absurd (full_error-ne-none _ _ bad)
]

pub IsNext-short :
    (n : ℕ) (s : Stream) (r : Read) {x : ReadError}
    → IsNext n s r
    → r.error ≡ some x
    → length (flat s.source.chunks) ≤ n
IsNext-short n s r nx e = elim (Bool-cases (leb n (length (flat s.source.chunks)))) [
  | inl le ↦ let bad : none ≡ some _ = rw le at (sym nx.error_next ∙ e) in cc
  | inr gt ↦ ground arith
]

pub IsNext-enough :
    (n : ℕ) (s : Stream) (r : Read)
    → IsNext n s r
    → n ≤ length (flat s.source.chunks)
    → r.error ≡ none
IsNext-enough n s r nx le = nx.error_next ∙ rw (le→leb n (length (flat s.source.chunks)) le)
