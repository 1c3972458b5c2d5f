-- ===== src/ImageWrite/Writer/Success.antt =====
-- The stages of a Write of imagewrite.go that returned no error.
use dc_1_pmos.Base.{ℕ, ◌≡◌, ◌≢◌, refl, ap, sym, ◌∙◌, Bytes, inl, inr, Result, ok, err}
use dc_1_pmos.ImageWrite.Reader.{Source, Read}
use dc_1_pmos.ImageWrite.Target.{Target}
use dc_1_pmos.ImageWrite.Writer.{
  WriteError, Written, Outcome, Copied, scrub, abandon, verify, commit, write_body, write,
}
use dc_1_pmos.ImageWrite.Writer.Stages.{
  Abandoned, Verified, Committed, BodyWritten, Started, flushed, copied, window, verify-cases,
  commit-cases, write_body-cases, write-cases, small, unscrubbed, no_window,
}

-- The stages of a Write that ended well, end to end.
module _ (t : Target) (sha : Bytes → Bytes) (src : Source) (size : ℕ) (want : Bytes)
    (d : t.Device) where
  abbrev pub r : Read
  r = window t sha src size

  abbrev pub c : Copied t
  c = copied t sha size want r.bytes r.stream (scrub t d).1

  abbrev pub got : Bytes
  got = sha c.stream.hashed

  abbrev pub last : t.Device
  last = (t.sync (t.write_at r.bytes 0 c.device).1).1

  pub record Succeeded (w : Written) : Type 0 where
    pub started : Started t sha src size want d (write t sha src size want d)
    pub body :
        BodyWritten t sha size want r.bytes r.stream
          (scrub t d).1
          (write_body t sha size want r.bytes r.stream (scrub t d).1)
    pub committed :
        Committed t sha size r.bytes got c.device (commit t sha size r.bytes got c.device)
    pub verified : Verified t sha size got last (verify t sha size got last)
    pub written : w ≡ record { size = size; sha256 = got }
    pub final : (write t sha src size want d).device ≡ flushed t sha last

  ok-ne-err : {w : Written} {e : WriteError} (o : Result WriteError Written) → o ≡ ok w → o ≢ err e
  ok-ne-err o p q = cc

  never-Abandoned : (o : Outcome t) {w : Written} → o.result ≡ ok w → ¬ Abandoned t sha o
  never-Abandoned o h a =
      let same : o.result ≡ err a.why =
        ap (λ (p : Outcome t). p.result) a.same ∙ unfold abandon in refl in
      cc

  pub write-Succeeded : {w : Written} → (write t sha src size want d).result ≡ ok w → Succeeded w
  write-Succeeded {w} h = elim (write-cases t sha src size want d) [
    | inl s ↦
        let h1 = ap (λ (p : Outcome t). p.result) (sym s.next) ∙ h in
        elim (write_body-cases t sha size want r.bytes r.stream (scrub t d).1) [
          | inr a ↦ absurd (never-Abandoned _ h1 a)
          | inl b ↦
              let h2 = ap (λ (p : Outcome t). p.result) (sym b.next) ∙ h1 in
              elim (commit-cases t sha size r.bytes got c.device) [
                | inr a ↦ absurd (never-Abandoned _ h2 a)
                | inl k ↦
                    let h3 = ap (λ (p : Outcome t). p.result) (sym k.next) ∙ h2 in
                    elim (verify-cases t sha size got last) [
                      | inr a ↦ absurd (never-Abandoned _ h3 a)
                      | inl v ↦
                          let out : ok w ≡ ok (record { size = size; sha256 = got }) =
                            sym h3 ∙ ap (λ (p : Outcome t). p.result) v.done in
                          record {
                            started = s;
                            body = b;
                            committed = k;
                            verified = v;
                            written = cc;
                            final =
                                ap (λ (p : Outcome t). p.device)
                                  (s.next ∙ b.next ∙ k.next ∙ v.done);
                          }
                    ]
              ]
        ]
    | inr (small lt same) ↦ let bad = sym (ap (λ (p : Outcome t). p.result) same) ∙ h in cc
    | inr (unscrubbed x fault same) ↦
        let bad = sym (ap (λ (p : Outcome t). p.result) same) ∙ h in cc
    | inr (no_window x large s same) ↦
        let bad = sym (ap (λ (p : Outcome t). p.result) same) ∙ h in cc
  ]
