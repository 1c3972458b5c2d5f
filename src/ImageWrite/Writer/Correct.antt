-- ===== src/ImageWrite/Writer/Correct.antt =====
-- Write of imagewrite.go on an honest device: what a success means, and when it is given.
use dc_1_pmos.Base.{
  ℕ, ◌+◌, ◌-◌, ◌≤◌, ◌≡◌, ◌⊎◌, ap, sym, ◌∙◌, Bytes, [], ◌++◌, inl, inr, arith, none, length, take,
  drop, ok, subst, take-add, length-take, length-drop,
}
use dc_1_pmos.ImageWrite.Reader.{Source, Stream, flat}
use dc_1_pmos.ImageWrite.Reader.Laws.{read_full-IsNext, IsNext-long}
use dc_1_pmos.ImageWrite.Target.{Target, IsHonest, segment, overwrite}
use dc_1_pmos.ImageWrite.Target.Contents.{
  segment-overwrite_self, segment-overwrite_after, segment-add,
}
use dc_1_pmos.ImageWrite.Writer.{mib, Written, scrub, write}
use dc_1_pmos.ImageWrite.Writer.Copy.{copy_at-HasCopied}
use dc_1_pmos.ImageWrite.Writer.Stages.{flushed}
use dc_1_pmos.ImageWrite.Writer.Success.{r, c, last, write-Succeeded}

-- What the stages have in hand on an honest device when the body has been copied.
module _ (t : Target) (honest : IsHonest t) (sha : Bytes → Bytes) (src : Source) (size : ℕ)
    (want : Bytes) (d : t.Device) where
  open honest use {stored}

  abbrev pub image : Bytes
  image = take size (flat src.chunks)

  pub record Copies : Type 0 where
    pub whole : size ≤ length (flat src.chunks)
    pub first : (r t sha src size want d).bytes ≡ take mib (flat src.chunks)
    pub hashed : (c t sha src size want d).stream.hashed ≡ image
    pub body :
        segment (stored (c t sha src size want d).device) mib (size - mib)
        ≡ take (size - mib) (drop mib (flat src.chunks))

  image-split :
      mib ≤ size
      → take mib (flat src.chunks) ++ take (size - mib) (drop mib (flat src.chunks)) ≡ image
  image-split le =
      let e : size ≡ mib + (size - mib) = omega arith in
      sym (take-add mib (size - mib) (flat src.chunks))
      ∙ ap (λ (n : ℕ). take n (flat src.chunks)) (sym e)

  pub Copies_of :
      mib ≤ size
      → (r t sha src size want d).error ≡ none
      → (c t sha src size want d).error ≡ none
      → (c t sha src size want d).done ≡ size - mib
      → Copies
  Copies_of le fine copied count =
      let s0 : Stream = record { source = src; left = size; hashed = [] } in
      let rd = r t sha src size want d in
      let cp = c t sha src size want d in
      let nx = read_full-IsNext mib s0 le in
      let long = IsNext-long mib s0 rd nx fine in
      let e0 : size - mib - 0 ≡ size - mib = omega arith in
      let room : size - mib - 0 ≤ rd.stream.left =
        omega (arith, nx.left_next, length-take mib (flat src.chunks)) in
      let hc =
        copy_at-HasCopied t honest (size - mib) mib (size - mib) 0 rd.stream (scrub t d).1 room
          copied in
      let tail : take (size - mib - 0) (flat rd.stream.source.chunks)
          ≡ take (size - mib) (drop mib (flat src.chunks)) =
        rw e0 (ap (take (size - mib)) nx.rest_next) in
      let len : length (take (size - mib) (drop mib (flat src.chunks))) ≡ size - mib =
        ap (λ (bs : Bytes). length bs) (sym tail) ∙ omega (arith, hc.count, count) in
      let off : mib + 0 ≡ mib = omega arith in
      record {
        whole = omega (
          arith,
          len,
          length-take (size - mib) (drop mib (flat src.chunks)),
          length-drop mib (flat src.chunks),
        );
        first = nx.bytes_next;
        hashed =
            hc.hashed
            ∙ ap (λ (bs : Bytes). rd.stream.hashed ++ bs) tail
            ∙ ap (λ (bs : Bytes). bs ++ take (size - mib) (drop mib (flat src.chunks)))
                nx.hashed_next
            ∙ image-split le;
        body =
            subst
              (λ (n : ℕ).
                segment (stored cp.device) mib n ≡ take (size - mib) (drop mib (flat src.chunks)))
              len
              (subst (λ (bs : Bytes). segment (stored cp.device) mib (length bs) ≡ bs) tail
                (subst
                  (λ (o : ℕ).
                    segment (stored cp.device) o
                      (length (take (size - mib - 0) (flat rd.stream.source.chunks)))
                    ≡ take (size - mib - 0) (flat rd.stream.source.chunks))
                  off hc.stored_next.landed));
      }

  -- The device once the held-back window has been written over the copied body.
  pub committed_stored :
      mib ≤ size
      → Copies
      → (t.write_at (r t sha src size want d).bytes 0 (c t sha src size want d).device).0 ≡ none
      → segment (stored (flushed t sha (last t sha src size want d))) 0 size ≡ image
  committed_stored le cs wrote =
      let rd = r t sha src size want d in
      let cp = c t sha src size want d in
      let kept : stored (flushed t sha (last t sha src size want d))
          ≡ overwrite (stored cp.device) rd.bytes 0 =
        honest.drop_caches_keeps _
        ∙ honest.sync_all_keeps _
        ∙ honest.sync_keeps _
        ∙ honest.write_stores rd.bytes 0 cp.device wrote in
      let len : length rd.bytes ≡ mib =
        ap (λ (bs : Bytes). length bs) cs.first
        ∙ omega (arith, length-take mib (flat src.chunks), cs.whole) in
      let split : size ≡ mib + (size - mib) = omega arith in
      let front : segment (overwrite (stored cp.device) rd.bytes 0) 0 mib
          ≡ take mib (flat src.chunks) =
        subst (λ (n : ℕ). segment (overwrite (stored cp.device) rd.bytes 0) 0 n ≡ rd.bytes) len
          (segment-overwrite_self (stored cp.device) rd.bytes 0)
        ∙ cs.first in
      let back : segment (overwrite (stored cp.device) rd.bytes 0) (0 + mib) (size - mib)
          ≡ take (size - mib) (drop mib (flat src.chunks)) =
        segment-overwrite_after (stored cp.device) rd.bytes 0 (0 + mib) (size - mib) (omega arith)
        ∙ ap (λ (o : ℕ). segment (stored cp.device) o (size - mib)) (omega arith)
        ∙ cs.body in
      rw kept (
        ap (λ (n : ℕ). segment (overwrite (stored cp.device) rd.bytes 0) 0 n) split
        ∙ segment-add (overwrite (stored cp.device) rd.bytes 0) mib (size - mib) 0
        ∙ ap
            (λ (bs : Bytes).
              bs ++ segment (overwrite (stored cp.device) rd.bytes 0) (0 + mib) (size - mib))
            front
        ∙ ap (λ (bs : Bytes). take mib (flat src.chunks) ++ bs) back
        ∙ image-split le)

  -- If Write returns no error, the source had the whole image, the device holds exactly its bytes
  -- at its start, and the digest that is returned is the image's and is the declared one if any
  -- was declared.
  pub write_correct :
      {w : Written}
      → (write t sha src size want d).result ≡ ok w
      → (mib ≤ size)
        × (size ≤ length (flat src.chunks))
        × (segment (stored (write t sha src size want d).device) 0 size
            ≡ take size (flat src.chunks))
        × (w ≡ record { size = size; sha256 = sha (take size (flat src.chunks)) })
        × ((want ≡ []) ⊎ (want ≡ w.sha256))
  write_correct {w} h =
      let s = write-Succeeded t sha src size want d h in
      let cs = Copies_of s.started.large s.started.fine s.body.fine s.body.count in
      let digest : w ≡ record { size = size; sha256 = sha image } =
        s.written ∙ ap (λ (bs : Bytes). record { size = size; sha256 = sha bs }) cs.hashed in
      (
        s.started.large,
        cs.whole,
        ap (λ (x : t.Device). segment (stored x) 0 size) s.final
            ∙ committed_stored s.started.large cs s.committed.wrote,
        digest,
        elim s.body.agreed [
          | inl undeclared ↦ inl undeclared
          | inr right ↦ inr (sym right ∙ sym (ap (λ (x : Written). x.sha256) s.written))
        ],
      )
