-- ===== src/ImageWrite/Writer/Succeeds.antt =====
-- Write of imagewrite.go returns a result: on a reliable device, for a source that has the image
-- that was declared.
use dc_1_pmos.Base.{
  ℕ, ◌-◌, ◌≤◌, ◌≡◌, ◌⊎◌, ap, sym, ◌∙◌, Bytes, [], ◌∷◌, ◌++◌, inl, inr, arith, none, length, take,
  ok, length-take, length-drop, ltb-false, ==_iff, bytes_equal, bytes_equal_iff, replicate,
  Bool-cases,
}
use dc_1_pmos.ImageWrite.Reader.{Source, flat}
use dc_1_pmos.ImageWrite.Reader.Laws.{read_full-IsNext, IsNext-enough}
use dc_1_pmos.ImageWrite.Target.{Target, IsHonest, IsReliable, segment}
use dc_1_pmos.ImageWrite.Writer.{
  mib, receiving_image, sha_verified, verifying_written, Outcome, scrub, read_back, verify, commit,
  write_body, write,
}
use dc_1_pmos.ImageWrite.Writer.Copy.{copy_at-HasCopied}
use dc_1_pmos.ImageWrite.Writer.Ends.{copy_at_reliable}
use dc_1_pmos.ImageWrite.Writer.ReadBack.{read_back_reliable}
use dc_1_pmos.ImageWrite.Writer.Stages.{flushed}
use dc_1_pmos.ImageWrite.Writer.Success.{r, c, got, last}
use dc_1_pmos.ImageWrite.Writer.Correct.{Copies_of, committed_stored}

module _ (t : Target) (sha : Bytes → Bytes) where
  open t use {Device}

  pub scrub_reliable : (d : Device) → IsReliable t → (scrub t d).0 ≡ none
  unfolding scrub
  scrub_reliable d rel = rw (rel.writes (replicate mib 0) 0 d, scrub) (rel.syncs _)

  verify_passes :
      (size : ℕ) (got back : Bytes) (d : Device)
      → read_back t size size 0 [] (flushed t sha d) ≡ ok back
      → sha back ≡ got
      → verify t sha size got d ≡ record {
        result = ok (record { size = size; sha256 = got });
        stages = receiving_image ∷ sha_verified ∷ verifying_written ∷ [];
        device = flushed t sha d;
      }
  unfolding verify
  verify_passes size got back d e same =
      rw (e, verify) (rw ((bytes_equal_iff (sha back) got).1 same))

  commit_passes :
      (size : ℕ) (first got : Bytes) (d : Device)
      → IsReliable t
      → commit t sha size first got d ≡ verify t sha size got (t.sync (t.write_at first 0 d).1).1
  unfolding commit
  commit_passes size first got d rel = rw (rel.writes first 0 d, commit) (rw (rel.syncs _))

  module _ (src : Source) (size : ℕ) (want : Bytes) (d : Device) where
    write_body_passes :
        (c t sha src size want d).error ≡ none
        → (c t sha src size want d).done ≡ size - mib
        → (want ≡ []) ⊎ (got t sha src size want d ≡ want)
        → write_body t sha size want
            (r t sha src size want d).bytes
            (r t sha src size want d).stream
            (scrub t d).1
          ≡ commit t sha size
              (r t sha src size want d).bytes
              (got t sha src size want d)
              (c t sha src size want d).device
    unfolding write_body
    write_body_passes fine count (inl none_declared) =
        rw (fine, write_body)
          (rw ((==_iff _ _).1 count) (rw ((bytes_equal_iff want []).1 none_declared)))
    write_body_passes fine count (inr right) =
        rw (fine, write_body)
          (rw ((==_iff _ _).1 count) (
            rw ((bytes_equal_iff (got t sha src size want d) want).1 right)
              (elim (Bool-cases (bytes_equal want [])) [ inl e ↦ rw e | inr e ↦ rw e ])))

    write_passes :
        IsReliable t
        → mib ≤ size
        → (r t sha src size want d).error ≡ none
        → write t sha src size want d
          ≡ write_body t sha size want
              (r t sha src size want d).bytes
              (r t sha src size want d).stream
              (scrub t d).1
    unfolding write
    write_passes rel le fine = rw (ltb-false size mib le) (rw (scrub_reliable d rel) (rw fine))

    matches :
        (c t sha src size want d).stream.hashed ≡ take size (flat src.chunks)
        → (want ≡ []) ⊎ (want ≡ sha (take size (flat src.chunks)))
        → (want ≡ []) ⊎ (got t sha src size want d ≡ want)
    matches e (inl undeclared) = inl undeclared
    matches e (inr right) = inr (ap sha e ∙ sym right)

    -- On an honest device on which no call fails, and from a source that delivers the image in
    -- chunks of any sizes, Write reports its three stages and returns the image's size and digest,
    -- if that is the digest which was declared or none was.
    pub write_succeeds :
        IsHonest t
        → IsReliable t
        → mib ≤ size
        → size ≤ length (flat src.chunks)
        → (want ≡ []) ⊎ (want ≡ sha (take size (flat src.chunks)))
        → ((write t sha src size want d).result
            ≡ ok (record { size = size; sha256 = sha (take size (flat src.chunks)) }))
          × ((write t sha src size want d).stages
              ≡ receiving_image ∷ sha_verified ∷ verifying_written ∷ [])
    write_succeeds honest rel le long agreed =
        let rd = r t sha src size want d in
        let nx = read_full-IsNext mib (record { source = src; left = size; hashed = [] }) le in
        let fine : rd.error ≡ none = IsNext-enough mib _ rd nx (omega arith) in
        let room : size - mib - 0 ≤ rd.stream.left =
          omega (arith, nx.left_next, length-take mib (flat src.chunks)) in
        let rest : length (flat rd.stream.source.chunks) ≡ length (flat src.chunks) - mib =
          ap (λ (bs : Bytes). length bs) nx.rest_next ∙ length-drop mib (flat src.chunks) in
        let copies =
          copy_at_reliable t (size - mib) mib (size - mib) 0 rd.stream (scrub t d).1 rel room
            (omega arith) (omega (arith, rest)) in
        let hc =
          copy_at-HasCopied t honest (size - mib) mib (size - mib) 0 rd.stream (scrub t d).1 room
            copies in
        let count : (c t sha src size want d).done ≡ size - mib =
          omega
            (arith, hc.count, length-take (size - mib - 0) (flat rd.stream.source.chunks), rest) in
        let cs = Copies_of t honest sha src size want d le fine copies count in
        let held : segment (honest.stored (flushed t sha (last t sha src size want d))) 0 (size - 0)
            ≡ take size (flat src.chunks) =
          ap (λ (n : ℕ). segment (honest.stored (flushed t sha (last t sha src size want d))) 0 n)
            (omega arith)
          ∙ committed_stored t honest sha src size want d le cs (rel.writes _ 0 _) in
        let back =
          read_back_reliable t honest size size 0 [] (flushed t sha (last t sha src size want d))
            rel (omega arith) (omega arith)
          ∙ ap (λ (bs : Bytes). ok ([] ++ bs)) held in
        let all =
          write_passes rel le fine
          ∙ write_body_passes copies count (matches cs.hashed agreed)
          ∙ commit_passes size rd.bytes (got t sha src size want d) (c t sha src size want d).device
              rel
          ∙ verify_passes size (got t sha src size want d) _ (last t sha src size want d) back
              (ap sha (sym cs.hashed)) in
        (
          ap (λ (o : Outcome t). o.result) all
              ∙ ap (λ (bs : Bytes). ok (record { size = size; sha256 = sha bs })) cs.hashed,
          ap (λ (o : Outcome t). o.stages) all,
        )
