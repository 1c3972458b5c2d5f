-- ===== src/ImageWrite/Writer/Halts.antt =====
-- Write of imagewrite.go ends: neither of its loops runs out of rounds.
use dc_1_pmos.Base.{
  ℕ, ◌-◌, ◌≤◌, ◌≢◌, ap, ◌∙◌, Bytes, [], inl, inr, arith, some, ◌==◌, bytes_equal, length-take,
  Result-cases, Option-cases, Bool-cases, err, not, ◌&&◌,
}
use dc_1_pmos.ImageWrite.Reader.{Source, Stream, flat}
use dc_1_pmos.ImageWrite.Reader.Laws.{read_full-IsNext}
use dc_1_pmos.ImageWrite.Target.{Target, IsHonest}
use dc_1_pmos.ImageWrite.Writer.{
  mib, stuck, body_failed, read_back_failed, Outcome, read_back, abandon, verify, commit,
  write_body, write,
}
use dc_1_pmos.ImageWrite.Writer.Ends.{copy_at-ne-stuck}
use dc_1_pmos.ImageWrite.Writer.ReadBack.{read_back-ne-stuck}
use dc_1_pmos.ImageWrite.Writer.Stages.{flushed, copied, write-cases, small, unscrubbed, no_window}

module _ (t : Target) (honest : IsHonest t) (sha : Bytes → Bytes) where
  open t use {Device}

  abbrev pub Halts : Outcome t → Type 0
  Halts o = (o.result ≢ err (body_failed stuck)) × (o.result ≢ err (read_back_failed stuck))

  verify-Halts : (size : ℕ) (got : Bytes) (d : Device) → Halts (verify t sha size got d)
  unfolding verify abandon
  verify-Halts size got d = elim (Result-cases (read_back t size size 0 [] (flushed t sha d))) [
    | inr (x, e) ↦
        let fine : x ≢ stuck = λ q.
          read_back-ne-stuck t honest size size 0 [] (flushed t sha d) (omega arith)
            (e ∙ ap err q) in
        rw (e, verify) ((λ q. cc), (λ q. fine (cc)))
    | inl (back, e) ↦ elim (Bool-cases (bytes_equal (sha back) got)) [
      | inr ne ↦ rw (e, verify) (rw ne ((λ q. cc), (λ q. cc)))
      | inl eq ↦ rw (e, verify) (rw eq ((λ q. cc), (λ q. cc)))
    ]
  ]

  commit-Halts : (size : ℕ) (first got : Bytes) (d : Device) → Halts (commit t sha size first got d)
  unfolding commit abandon
  commit-Halts size first got d = elim (Option-cases (t.write_at first 0 d).0) [
    | inr (x, e) ↦ rw (e, commit) ((λ q. cc), (λ q. cc))
    | inl w ↦ elim (Option-cases (t.sync (t.write_at first 0 d).1).0) [
      | inr (x, e) ↦ rw (w, commit) (rw e ((λ q. cc), (λ q. cc)))
      | inl s ↦ rw (w, commit) (rw s (verify-Halts size got _))
    ]
  ]

  write_body-Halts :
      (size : ℕ) (want first : Bytes) (s : Stream) (d : Device)
      → size - mib ≤ s.left
      → Halts (write_body t sha size want first s d)
  unfolding write_body abandon
  write_body-Halts size want first s d room =
      let c = copied t sha size want first s d in
      let fine =
        copy_at-ne-stuck t (size - mib) mib (size - mib) 0 s d (omega arith) (omega arith) in
      elim (Option-cases c.error) [
        | inr (x, e) ↦
            let live : x ≢ stuck = λ q. fine (e ∙ ap some q) in
            rw (e, write_body) ((λ q. live (cc)), (λ q. cc))
        | inl e ↦ elim (Bool-cases (c.done == size - mib)) [
          | inr short ↦ rw (e, write_body) (rw short ((λ q. cc), (λ q. cc)))
          | inl full ↦
              elim (Bool-cases
                (not (bytes_equal want []) && not (bytes_equal (sha c.stream.hashed) want))) [
                  | inl wrong ↦ rw (e, write_body) (rw full (rw wrong ((λ q. cc), (λ q. cc))))
                  | inr right ↦
                      rw (e, write_body) (rw full (rw right (commit-Halts size first _ _)))
                ]
        ]
      ]

  -- On an honest device Write comes to an end, whether or not calls fail: the rounds that the model
  -- gives to the loops of copyAt and readBackSHA are enough.
  pub write-Halts :
      (src : Source) (size : ℕ) (want : Bytes) (d : Device) → Halts (write t sha src size want d)
  write-Halts src size want d = elim (write-cases t sha src size want d) [
    | inl s ↦
        let nx = read_full-IsNext mib (record { source = src; left = size; hashed = [] }) s.large in
        rw s.next (
          write_body-Halts size want _ _ _
            (omega (arith, nx.left_next, length-take mib (flat src.chunks))))
    | inr (small lt same) ↦ rw same ((λ q. cc), (λ q. cc))
    | inr (unscrubbed x fault same) ↦ rw same ((λ q. cc), (λ q. cc))
    | inr (no_window x large s same) ↦ rw same ((λ q. cc), (λ q. cc))
  ]
