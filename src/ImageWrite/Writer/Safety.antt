-- ===== src/ImageWrite/Writer/Safety.antt =====
-- Write of imagewrite.go fails closed: what an error leaves on the device.
use dc_1_pmos.Base.{
  ℕ, ◌<◌, ◌≡◌, ◌⊎◌, ap, sym, ◌∙◌, Bytes, inl, inr, none, some, Option-cases, replicate, ok, err,
  subst,
}
use dc_1_pmos.ImageWrite.Reader.{Source, Stream}
use dc_1_pmos.ImageWrite.Target.{Target, IsHonest, segment}
use dc_1_pmos.ImageWrite.Target.Contents.{segment-overwrite_zeros}
use dc_1_pmos.ImageWrite.Writer.{
  mib, WriteError, Written, Outcome, scrub, abandon, verify, commit, write_body, write,
}
use dc_1_pmos.ImageWrite.Writer.Stages.{
  Abandoned, verify-cases, commit-cases, write_body-cases, write-cases, small, unscrubbed,
  no_window,
}

module _ (t : Target) (honest : IsHonest t) where
  open t use {Device}
  open honest use {stored}

  -- The superblock window holds zeros only.
  abbrev pub IsClosed : Device → Type 0
  IsClosed d = segment (stored d) 0 mib ≡ replicate mib 0

  pub scrub-IsClosed : (d : Device) → (scrub t d).0 ≡ none → IsClosed (scrub t d).1
  unfolding scrub
  scrub-IsClosed d h = elim (Option-cases (t.write_at (replicate mib 0) 0 d).0) [
    | inr (x, e) ↦ let bad : some x ≡ none = rw (e, scrub) at h in cc
    | inl e ↦
        rw (e, scrub)
          (rw (honest.sync_keeps, honest.write_stores (replicate mib 0) 0 d e)
            (segment-overwrite_zeros (stored d) mib 0))
  ]

  module _ (sha : Bytes → Bytes) (wipes : (d : Device) → (scrub t d).0 ≡ none) where
    FailsClosed : Outcome t → Type 0
    FailsClosed o = (e : WriteError) → o.result ≡ err e → IsClosed o.device

    Abandoned-FailsClosed : (o : Outcome t) → Abandoned t sha o → FailsClosed o
    unfolding FailsClosed
    Abandoned-FailsClosed o a e h =
        subst (λ (p : Outcome t). IsClosed p.device) (sym a.same)
          (unfold abandon in scrub-IsClosed a.at (wipes a.at))

    verify-FailsClosed :
        (size : ℕ) (got : Bytes) (d : Device) → FailsClosed (verify t sha size got d)
    unfolding FailsClosed
    verify-FailsClosed size got d e h = elim (verify-cases t sha size got d) [
      | inl v ↦
          let out : Written = record { size = size; sha256 = got } in
          let bad : ok out ≡ err e = sym (ap (λ (p : Outcome t). p.result) v.done) ∙ h in cc
      | inr a ↦ Abandoned-FailsClosed _ a e h
    ]

    commit-FailsClosed :
        (size : ℕ) (first got : Bytes) (d : Device) → FailsClosed (commit t sha size first got d)
    commit-FailsClosed size first got d = elim (commit-cases t sha size first got d) [
      | inl c ↦ rw c.next (verify-FailsClosed size got _)
      | inr a ↦ Abandoned-FailsClosed _ a
    ]

    write_body-FailsClosed :
        (size : ℕ) (want first : Bytes) (s : Stream) (d : Device)
        → FailsClosed (write_body t sha size want first s d)
    write_body-FailsClosed size want first s d = elim (write_body-cases t sha size want first s d) [
      | inl b ↦ rw b.next (commit-FailsClosed size first _ _)
      | inr a ↦ Abandoned-FailsClosed _ a
    ]

    -- Where the device takes every scrub, an error of Write leaves the first MiB all zero, so that
    -- nothing on the partition is mountable; but an image smaller than that window is refused with
    -- the device untouched.
    pub write_fails-IsClosed :
        (src : Source) (size : ℕ) (want : Bytes) (d : Device) {e : WriteError}
        → (write t sha src size want d).result ≡ err e
        → ((size < mib) × ((write t sha src size want d).device ≡ d))
          ⊎ IsClosed (write t sha src size want d).device
    write_fails-IsClosed src size want d {e} h = elim (write-cases t sha src size want d) [
      | inl s ↦ inr (
          subst (λ (p : Outcome t). IsClosed p.device) (sym s.next)
            (unfold FailsClosed in
              write_body-FailsClosed size want _ _ _ e
                (ap (λ (p : Outcome t). p.result) (sym s.next) ∙ h)))
      | inr (small lt same) ↦ inl (lt, ap (λ (p : Outcome t). p.device) same)
      | inr (unscrubbed x fault same) ↦ let bad : some x ≡ none = sym fault ∙ wipes d in cc
      | inr (no_window x large s same) ↦
          inr (subst (λ (p : Outcome t). IsClosed p.device) (sym same) (scrub-IsClosed d s))
    ]
