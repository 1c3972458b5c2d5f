-- ===== src/ImageWrite/Writer/ReadBack.antt =====
-- readBackSHA of imagewrite.go on an honest device: the bytes that it hashes are the bytes that
-- are stored.
use dc_1_pmos.Base.{
  ℕ, zero, suc, ◌+◌, ◌-◌, ◌≤◌, min, ◌≡◌, ◌≢◌, refl, ap, sym, ◌∙◌, true, false, ◌++◌, Option, none,
  some, inl, inr, arith, ltb, ◌==◌, ==_iff, if◌then◌else◌, Bytes, length, ltb-false, Result-cases,
  Bool-cases, Option-cases, append_assoc, append-nil, subst, ltb→lt, ok, err,
}
use dc_1_pmos.ImageWrite.Reader.{ReadError, eof, unexpected_eof, failed}
use dc_1_pmos.ImageWrite.Target.{Target, IsHonest, IsReliable, segment}
use dc_1_pmos.ImageWrite.Target.Contents.{segment-add}
use dc_1_pmos.ImageWrite.Writer.{buf_len, LoopError, read_failed, stuck, read_back}
use dc_1_pmos.ImageWrite.Writer.Copy.{buf_len_pos}

read_back_stop :
    (t : Target) (size done : ℕ) (acc : Bytes) (d : t.Device) {bs : Bytes}
    → read_back t zero size done acc d ≡ ok bs
    → (size ≤ done) × (bs ≡ acc)
unfolding read_back
read_back_stop t size done acc d h = ground arith

-- The ways that a round of readBackSHA can go.
module _ (t : Target) (fuel size done : ℕ) (acc : Bytes) (d : t.Device) where
  abbrev chunk : Bytes × Option ReadError
  chunk = t.read_at (min buf_len (size - done)) done d

  read_back_full : ltb done size ≡ false → read_back t (suc fuel) size done acc d ≡ ok acc
  unfolding read_back
  read_back_full full = rw full

  read_back_more :
      ltb done size ≡ true
      → chunk.1 ≡ none
      → read_back t (suc fuel) size done acc d
        ≡ read_back t fuel size (done + length chunk.0) (acc ++ chunk.0) d
  unfolding read_back
  read_back_more more fine = rw more (rw fine)

  read_back_eof :
      ltb done size ≡ true
      → chunk.1 ≡ some eof
      → read_back t (suc fuel) size done acc d
        ≡ (if done + length chunk.0 == size then ok (acc ++ chunk.0) else err (read_failed eof))
  unfolding read_back
  read_back_eof more e = rw more (rw e)

  read_back_fails :
      (x : ReadError)
      → x ≢ eof
      → ltb done size ≡ true
      → chunk.1 ≡ some x
      → read_back t (suc fuel) size done acc d ≡ err (read_failed x)
  unfolding read_back
  read_back_fails eof ne more e = absurd (ne refl)
  read_back_fails unexpected_eof ne more e = rw more (rw e)
  read_back_fails (failed n) ne more e = rw more (rw e)

module _ (t : Target) (honest : IsHonest t) where
  open honest use {stored}

  -- One chunk that came whole, in front of what the rest of the loop returns.
  chunk-segment :
      (size done : ℕ) (acc bs : Bytes) (d : t.Device)
      → done + length bs ≤ size
      → bs ≡ segment (stored d) done (length bs)
      → acc ++ bs ++ segment (stored d) (done + length bs) (size - (done + length bs))
        ≡ acc ++ segment (stored d) done (size - done)
  chunk-segment size done acc bs d le e =
      let split : size - done ≡ length bs + (size - (done + length bs)) = omega arith in
      rw (split, segment-add (stored d) (length bs) (size - (done + length bs)) done, append_assoc)
        (ap
          (λ (xs : Bytes).
            acc ++ (xs ++ segment (stored d) (done + length bs) (size - (done + length bs))))
          e)

  pub read_back-segment :
      (fuel size done : ℕ) (acc : Bytes) (d : t.Device) {bs : Bytes}
      → done ≤ size
      → read_back t fuel size done acc d ≡ ok bs
      → bs ≡ acc ++ segment (stored d) done (size - done)
  read_back-segment zero size done acc d {bs} le h =
      let (full, e) = read_back_stop t size done acc d h in
      let z : size - done ≡ zero = omega arith in rw z (e ∙ sym (append-nil acc))
  read_back-segment (suc fuel) size done acc d {bs} le h =
      let n = min buf_len (size - done) in
      let c = chunk t fuel size done acc d in
      elim (Bool-cases (ltb done size)) [
        | inr full ↦
            let z : size - done ≡ zero = ground arith in
            let e : ok acc ≡ ok bs = sym (read_back_full t fuel size done acc d full) ∙ h in
            let e' : bs ≡ acc = cc in rw z (e' ∙ sym (append-nil acc))
        | inl more ↦ elim (Option-cases c.1) [
          | inl fine ↦
              let whole = honest.read_fills n done d fine in
              let seg =
                subst (λ (k : ℕ). c.0 ≡ segment (stored d) done k) (sym whole)
                  (honest.read_returns n done d (inl fine) whole) in
              let next =
                read_back-segment fuel size (done + length c.0) (acc ++ c.0) d (omega arith)
                  (sym (read_back_more t fuel size done acc d more fine) ∙ h) in
              next ∙ chunk-segment size done acc c.0 d (omega arith) seg
          | inr (eof, e) ↦ elim (Bool-cases (done + length c.0 == size)) [
            | inl all ↦
                let total = (==_iff (done + length c.0) size).0 all in
                let bound = honest.read_bounded n done d in
                let whole : length c.0 ≡ n = omega arith in
                let seg = honest.read_returns n done d (inr e) whole in
                let k : n ≡ size - done = omega arith in
                let e' : ok (acc ++ c.0) ≡ ok bs =
                  rw all at (sym (read_back_eof t fuel size done acc d more e) ∙ h) in
                let e'' : bs ≡ acc ++ c.0 = cc in
                rw (← k) (e'' ∙ ap (λ (xs : Bytes). acc ++ xs) seg)
            | inr cut ↦
                let e' : err (read_failed eof) ≡ ok bs =
                  rw cut at (sym (read_back_eof t fuel size done acc d more e) ∙ h) in
                cc
          ]
          | inr (unexpected_eof, e) ↦
              let e' : err (read_failed unexpected_eof) ≡ ok bs =
                sym (read_back_fails t fuel size done acc d unexpected_eof (λ q. cc) more e) ∙ h in
              cc
          | inr (failed x, e) ↦
              let e' : err (read_failed (failed x)) ≡ ok bs =
                sym (read_back_fails t fuel size done acc d (failed x) (λ q. cc) more e) ∙ h in
              cc
        ]
      ]

  -- The loop ends: every round of an honest device that does not fail moves it on.
  pub read_back-ne-stuck :
      (fuel size done : ℕ) (acc : Bytes) (d : t.Device)
      → size - done ≤ fuel
      → read_back t fuel size done acc d ≢ err stuck
  read_back-ne-stuck zero size done acc d le =
      unfold read_back in rw (ltb-false done size (omega arith)) (λ q. cc)
  read_back-ne-stuck (suc fuel) size done acc d le =
      let c = chunk t fuel size done acc d in
      elim (Bool-cases (ltb done size)) [
        | inr full ↦ rw (read_back_full t fuel size done acc d full) (λ q. cc)
        | inl more ↦ elim (Option-cases c.1) [
          | inl fine ↦
              let whole = honest.read_fills (min buf_len (size - done)) done d fine in
              rw (read_back_more t fuel size done acc d more fine) (
                read_back-ne-stuck fuel size (done + length c.0) (acc ++ c.0) d
                  (omega (arith, buf_len_pos, ltb→lt done size more)))
          | inr (eof, e) ↦ rw (read_back_eof t fuel size done acc d more e) (λ q. ground arith)
          | inr (unexpected_eof, e) ↦
              rw (read_back_fails t fuel size done acc d unexpected_eof (λ q. cc) more e) (λ q. cc)
          | inr (failed x, e) ↦
              rw (read_back_fails t fuel size done acc d (failed x) (λ q. cc) more e) (λ q. cc)
        ]
      ]

  read_back_only_stuck :
      (fuel size done : ℕ) (acc : Bytes) (d : t.Device) {x : LoopError}
      → IsReliable t
      → read_back t fuel size done acc d ≡ err x
      → x ≡ stuck
  read_back_only_stuck zero size done acc d rel h = unfold read_back in ground arith
  read_back_only_stuck (suc fuel) size done acc d {x} rel h =
      let c = chunk t fuel size done acc d in
      elim (Bool-cases (ltb done size)) [
        | inr full ↦
            let e : ok acc ≡ err x = sym (read_back_full t fuel size done acc d full) ∙ h in cc
        | inl more ↦
            read_back_only_stuck fuel size (done + length c.0) (acc ++ c.0) d rel
              (sym (read_back_more t fuel size done acc d more (rel.reads _ done d)) ∙ h)
      ]

  -- On a device that does not fail the loop returns what is stored.
  pub read_back_reliable :
      (fuel size done : ℕ) (acc : Bytes) (d : t.Device)
      → IsReliable t
      → done ≤ size
      → size - done ≤ fuel
      → read_back t fuel size done acc d ≡ ok (acc ++ segment (stored d) done (size - done))
  read_back_reliable fuel size done acc d rel le enough =
      elim (Result-cases (read_back t fuel size done acc d)) [
        | inl (bs, e) ↦ e ∙ ap ok (read_back-segment fuel size done acc d le e)
        | inr (x, e) ↦ absurd (
            read_back-ne-stuck fuel size done acc d enough
              (e ∙ ap err (read_back_only_stuck fuel size done acc d rel e)))
      ]
