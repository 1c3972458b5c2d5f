-- ===== src/Std/Base64/RoundTrip.antt =====
-- DecodeString reads back the encoding of every byte string.
use dc_1_pmos.Base.{
  ℕ, ◌+◌, ◌*◌, ◌/◌, ◌%◌, ◌<◌, ◌≡◌, refl, ◌∙◌, false, [], ◌∷◌, some, ◌==◌, Bytes, All, IsByte, arith,
}
use dc_1_pmos.Std.Strings.{is_crlf}
use dc_1_pmos.Std.Base64.{sextet, drop_crlf, decode_full, decode_quanta, decode, letter, encode}

sextet-letter : (x : ℕ) → x < 64 → sextet (letter x) ≡ some x
unfolding sextet letter
sextet-letter x h = ground arith

letter_plain : (x : ℕ) → x < 64 → (is_crlf (letter x) ≡ false) × ((letter x == b'=') ≡ false)
unfolding letter
letter_plain x h = ground arith

decode_quanta_full :
    (a b c d : ℕ) (rest : Bytes)
    → (d == b'=') ≡ false
    → decode_quanta (a ∷ b ∷ c ∷ d ∷ rest) ≡ decode_full a b c d (decode_quanta rest)
unfolding decode_quanta
decode_quanta_full a b c d [] h = rw h
decode_quanta_full a b c d (e ∷ es) h = refl

drop_crlf-letter :
    (x : ℕ) (cs : Bytes) → x < 64 → drop_crlf (letter x ∷ cs) ≡ letter x ∷ drop_crlf cs
unfolding drop_crlf
drop_crlf-letter x cs h = rw (letter_plain x h).0

-- What `encode` writes is free of line ends, so the decoder skips nothing.
drop_crlf-encode : (bs : Bytes) → All IsByte bs → drop_crlf (encode bs) ≡ encode bs
unfolding encode
drop_crlf-encode [] h = unfold drop_crlf in refl
drop_crlf-encode (a ∷ []) h =
    rw (drop_crlf-letter (a / 4) _ (omega arith), drop_crlf-letter (a % 4 * 16) _ (omega arith))
      (unfold drop_crlf in refl)
drop_crlf-encode (a ∷ b ∷ []) h =
    rw
      (
        drop_crlf-letter (a / 4) _ (omega arith),
        drop_crlf-letter (a % 4 * 16 + b / 16) _ (omega arith),
        drop_crlf-letter (b % 16 * 4) _ (omega arith),
      )
      (unfold drop_crlf in refl)
drop_crlf-encode (a ∷ b ∷ c ∷ cs) (ha, (hb, (hc, hs))) = rw (
  drop_crlf-letter (a / 4) _ (omega arith),
  drop_crlf-letter (a % 4 * 16 + b / 16) _ (omega arith),
  drop_crlf-letter (b % 16 * 4 + c / 64) _ (omega arith),
  drop_crlf-letter (c % 64) _ (omega arith),
  drop_crlf-encode cs hs,
)

decode_full_letters :
    (x y z w : ℕ) (rest : Bytes)
    → x < 64
    → y < 64
    → z < 64
    → w < 64
    → decode_full (letter x) (letter y) (letter z) (letter w) (some rest)
      ≡ some ((x * 4 + y / 16) ∷ (y % 16 * 16 + z / 4) ∷ (z % 4 * 64 + w) ∷ rest)
unfolding decode_full
decode_full_letters x y z w rest hx hy hz hw =
    rw (sextet-letter x hx)
      (rw (sextet-letter y hy) (rw (sextet-letter z hz) (rw (sextet-letter w hw))))

decode_quanta_one :
    (a : ℕ)
    → a < 256
    → decode_quanta (letter (a / 4) ∷ letter (a % 4 * 16) ∷ b'=' ∷ b'=' ∷ []) ≡ some (a ∷ [])
unfolding decode_quanta
decode_quanta_one a h =
    let e : a / 4 * 4 + a % 4 * 16 / 16 ≡ a = omega arith in
    rw (sextet-letter (a / 4) (omega arith)) (rw (sextet-letter (a % 4 * 16) (omega arith)) (rw e))

decode_quanta_two :
    (a b : ℕ)
    → a < 256
    → b < 256
    → decode_quanta
        (letter (a / 4) ∷ letter (a % 4 * 16 + b / 16) ∷ letter (b % 16 * 4) ∷ b'=' ∷ [])
      ≡ some (a ∷ b ∷ [])
unfolding decode_quanta
decode_quanta_two a b h k =
    let e : a / 4 * 4 + (a % 4 * 16 + b / 16) / 16 ≡ a = omega arith in
    let f : (a % 4 * 16 + b / 16) % 16 * 16 + b % 16 * 4 / 4 ≡ b = omega arith in
    rw (letter_plain (b % 16 * 4) (omega arith)).1 (
      rw (sextet-letter (a / 4) (omega arith)) (
        rw (sextet-letter (a % 4 * 16 + b / 16) (omega arith))
          (rw (sextet-letter (b % 16 * 4) (omega arith)) (rw (e, f)))))

decode_quanta-encode : (bs : Bytes) → All IsByte bs → decode_quanta (encode bs) ≡ some bs
unfolding encode
decode_quanta-encode [] h = unfold decode_quanta in refl
decode_quanta-encode (a ∷ []) h = decode_quanta_one a h.0
decode_quanta-encode (a ∷ b ∷ []) h = decode_quanta_two a b h.0 h.1.0
decode_quanta-encode (a ∷ b ∷ c ∷ cs) (ha, (hb, (hc, hs))) =
    let e : a / 4 * 4 + (a % 4 * 16 + b / 16) / 16 ≡ a = omega arith in
    let f : (a % 4 * 16 + b / 16) % 16 * 16 + (b % 16 * 4 + c / 64) / 4 ≡ b = omega arith in
    let g : (b % 16 * 4 + c / 64) % 4 * 64 + c % 64 ≡ c = omega arith in
    decode_quanta_full _ _ _ _ (encode cs) (letter_plain (c % 64) (omega arith)).1
    ∙ rw (decode_quanta-encode cs hs) (
        decode_full_letters (a / 4) (a % 4 * 16 + b / 16) (b % 16 * 4 + c / 64) (c % 64) cs
          (omega arith) (omega arith) (omega arith) (omega arith)
        ∙ rw (e, f, g))

-- Every byte string is decoded from its encoding.
pub decode-encode : (bs : Bytes) → All IsByte bs → decode (encode bs) ≡ some bs
unfolding decode
decode-encode bs h = rw (drop_crlf-encode bs h) (decode_quanta-encode bs h)

-- The encoding holds no line end.
pub encode-IsPlain : (bs : Bytes) → All IsByte bs → All (λ c. is_crlf c ≡ false) (encode bs)
unfolding encode
encode-IsPlain [] h = tt
encode-IsPlain (a ∷ []) h = (
  (letter_plain (a / 4) (omega arith)).0,
  ((letter_plain (a % 4 * 16) (omega arith)).0, (refl, (refl, tt))),
)
encode-IsPlain (a ∷ b ∷ []) h = (
  (letter_plain (a / 4) (omega arith)).0,
  (
    (letter_plain (a % 4 * 16 + b / 16) (omega arith)).0,
    ((letter_plain (b % 16 * 4) (omega arith)).0, (refl, tt)),
  ),
)
encode-IsPlain (a ∷ b ∷ c ∷ cs) (ha, (hb, (hc, hs))) = (
  (letter_plain (a / 4) (omega arith)).0,
  (
    (letter_plain (a % 4 * 16 + b / 16) (omega arith)).0,
    (
      (letter_plain (b % 16 * 4 + c / 64) (omega arith)).0,
      ((letter_plain (c % 64) (omega arith)).0, encode-IsPlain cs hs),
    ),
  ),
)
