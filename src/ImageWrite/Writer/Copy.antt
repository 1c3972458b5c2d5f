-- ===== src/ImageWrite/Writer/Copy.antt =====
-- copyAt of imagewrite.go on an honest device: what the loop writes, and that it ends.
use dc_1_pmos.Base.{
  ℕ, zero, suc, ◌+◌, ◌-◌, ◌≤◌, ◌<◌, min, ◌≡◌, ◌≢◌, refl, ap, sym, ◌∙◌, true, false, [], ◌∷◌, ◌++◌,
  Option, none, some, inl, inr, arith, ltb, Bytes, length, take, drop, Bool-cases, Option-cases,
  length-append, take_all, take-add, length-take, append_assoc, append-nil, subst,
}
use dc_1_pmos.ImageWrite.Reader.{
  ReadError, eof, unexpected_eof, failed, flat, Stream, Read, read_full,
}
use dc_1_pmos.ImageWrite.Reader.Laws.{IsNext, read_full-IsNext, IsNext-long, IsNext-short}
use dc_1_pmos.ImageWrite.Target.{Target, IsHonest, segment}
use dc_1_pmos.ImageWrite.Target.Contents.{
  segment-overwrite_self, segment-overwrite_before, segment-add,
}
use dc_1_pmos.ImageWrite.Writer.{
  buf_len, LoopError, write_failed, stuck, Copied, store_chunk, copy_end, copy_at,
}

pub buf_len_pos : 0 < buf_len
unfolding buf_len
buf_len_pos = omega arith

pub copy_end-ne-stuck : (e : ReadError) → copy_end e ≢ some stuck
unfolding copy_end
copy_end-ne-stuck eof h = cc
copy_end-ne-stuck unexpected_eof h = cc
copy_end-ne-stuck (failed x) h = cc

-- The count moves by the bytes of the chunk, on every target that takes them.
pub store_chunk_count :
    (t : Target) (offset done : ℕ) (bs : Bytes) (d : t.Device)
    → (store_chunk t offset done bs d).0 ≡ none
    → (store_chunk t offset done bs d).1 ≡ done + length bs
unfolding store_chunk
store_chunk_count t offset done [] d h = omega arith
store_chunk_count t offset done (b ∷ bs) d h =
    elim (Option-cases (t.write_at (b ∷ bs) (offset + done) d).0) [
      | inl e ↦ rw (e, store_chunk)
      | inr (x, e) ↦ let e' : some x ≡ none = rw (e, store_chunk) at h in cc
    ]

module _ (t : Target) (honest : IsHonest t) where
  open t use {Device, write_at}
  open honest use {stored}

  -- From `d` to `d'` the bytes `bs` came to stand at `off`, and what lies below is as it was.
  pub record IsStored (bs : Bytes) (off : ℕ) (d d' : Device) : Type 0 where
    pub landed : segment (stored d') off (length bs) ≡ bs
    pub below : (lo n : ℕ) → lo + n ≤ off → segment (stored d') lo n ≡ segment (stored d) lo n

  IsStored-nil : (off : ℕ) (d : Device) → IsStored [] off d d
  IsStored-nil off d = record { landed = refl; below = λ lo n h. refl }

  pub write_at-IsStored :
      (bs : Bytes) (off : ℕ) (d : Device)
      → (write_at bs off d).0 ≡ none
      → IsStored bs off d (write_at bs off d).1
  write_at-IsStored bs off d h = record {
    landed = rw (honest.write_stores bs off d h) (segment-overwrite_self (stored d) bs off);
    below = λ lo n b.
        rw (honest.write_stores bs off d h) (segment-overwrite_before (stored d) bs off lo n b);
  }

  IsStored-append :
      (xs ys : Bytes) (off : ℕ) (d d' d'' : Device)
      → IsStored xs off d d'
      → IsStored ys (off + length xs) d' d''
      → IsStored (xs ++ ys) off d d''
  IsStored-append xs ys off d d' d'' a b = record {
    landed = rw (length-append xs ys) (
        segment-add (stored d'') (length xs) (length ys) off
        ∙ ap (λ (zs : Bytes). zs ++ segment (stored d'') (off + length xs) (length ys))
            (b.below off (length xs) (omega arith) ∙ a.landed)
        ∙ ap (◌++◌ xs) b.landed);
    below = λ lo n h. b.below lo n (omega arith) ∙ a.below lo n h;
  }

  -- What one round does where it has bytes to write and the device takes them.
  store_chunk-IsStored :
      (offset done : ℕ) (bs : Bytes) (d : Device)
      → (store_chunk t offset done bs d).0 ≡ none
      → ((store_chunk t offset done bs d).1 ≡ done + length bs)
        × IsStored bs (offset + done) d (store_chunk t offset done bs d).2
  unfolding store_chunk
  store_chunk-IsStored offset done [] d h = (omega arith, IsStored-nil (offset + done) d)
  store_chunk-IsStored offset done (b ∷ bs) d h =
      elim (Option-cases (write_at (b ∷ bs) (offset + done) d).0) [
        | inl e ↦ rw (e, store_chunk) (refl, write_at-IsStored (b ∷ bs) (offset + done) d e)
        | inr (x, e) ↦ let e' : some x ≡ none = rw (e, store_chunk) at h in cc
      ]

  -- What copyAt did when it returned without an error: the next bytes of the source, as far as
  -- there are any, were hashed and stand at the offset.
  pub record HasCopied (offset want done : ℕ) (s : Stream) (d : Device) (c : Copied t)
      : Type 0 where
    pub count : c.done ≡ done + length (take (want - done) (flat s.source.chunks))
    pub hashed : c.stream.hashed ≡ s.hashed ++ take (want - done) (flat s.source.chunks)
    pub stored_next :
        IsStored (take (want - done) (flat s.source.chunks)) (offset + done) d c.device

  -- Nothing was left to copy.
  HasCopied-full :
      (offset want done : ℕ) (s : Stream) (d : Device) (e : Option LoopError)
      → want ≤ done
      → HasCopied offset want done s d (record { done = done; error = e; stream = s; device = d })
  HasCopied-full offset want done s d e le =
      let z : want - done ≡ zero = omega arith in
      record {
        count = rw z (omega arith);
        hashed = rw z (sym (append-nil s.hashed));
        stored_next = rw z (IsStored-nil (offset + done) d);
      }

  -- The source ended within the round.
  HasCopied-end :
      (chunk offset want done done' : ℕ) (s : Stream) (d d' : Device) (r : Read)
      → chunk ≤ want - done
      → length (flat s.source.chunks) ≤ chunk
      → IsNext chunk s r
      → done' ≡ done + length r.bytes
      → IsStored r.bytes (offset + done) d d'
      → HasCopied offset want done s d
          (record { done = done'; error = none; stream = r.stream; device = d' })
  HasCopied-end chunk offset want done done' s d d' r le short nx count st =
      let whole : take chunk (flat s.source.chunks) ≡ flat s.source.chunks =
        take_all chunk (flat s.source.chunks) short in
      let all : take (want - done) (flat s.source.chunks) ≡ flat s.source.chunks =
        take_all (want - done) (flat s.source.chunks) (omega arith) in
      let bytes : r.bytes ≡ flat s.source.chunks = nx.bytes_next ∙ whole in
      record {
        count = rw all (count ∙ ap (λ (bs : Bytes). done + length bs) bytes);
        hashed = rw all (nx.hashed_next ∙ ap (λ (bs : Bytes). s.hashed ++ bs) whole);
        stored_next = rw all (subst (λ (bs : Bytes). IsStored bs (offset + done) d d') bytes st);
      }

  -- A full round, and then the rest of the loop.
  HasCopied-step :
      (chunk offset want done done' : ℕ) (s : Stream) (d d' : Device) (r : Read) (c : Copied t)
      → chunk ≤ want - done
      → chunk ≤ length (flat s.source.chunks)
      → IsNext chunk s r
      → done' ≡ done + length r.bytes
      → IsStored r.bytes (offset + done) d d'
      → HasCopied offset want done' r.stream d' c
      → HasCopied offset want done s d c
  HasCopied-step chunk offset want done done' s d d' r c le long nx count st ih =
      let src = flat s.source.chunks in
      let len : length (take chunk src) ≡ chunk = omega (arith, length-take chunk src) in
      let fwd : done' ≡ done + chunk =
        count
        ∙ ap (λ (bs : Bytes). done + length bs) nx.bytes_next
        ∙ ap (λ (n : ℕ). done + n) len in
      let split : want - done ≡ chunk + (want - done') = omega arith in
      let next : take (want - done) src ≡ take chunk src ++ take (want - done') (drop chunk src) =
        rw split (take-add chunk (want - done') src) in
      let rest : take (want - done') (flat r.stream.source.chunks)
          ≡ take (want - done') (drop chunk src) =
        ap (take (want - done')) nx.rest_next in
      let more =
        subst (λ (bs : Bytes). IsStored bs (offset + done') d' c.device) rest ih.stored_next in
      record {
        count =
            rw (next, length-append (take chunk src) (take (want - done') (drop chunk src)))
              (omega (arith, ih.count, ap (λ (bs : Bytes). length bs) rest));
        hashed =
            rw
              (
                next,
                ← append_assoc s.hashed (take chunk src) (take (want - done') (drop chunk src)),
              )
              (ih.hashed ∙ cc (nx.hashed_next, rest));
        stored_next = rw next (
            IsStored-append (take chunk src) (take (want - done') (drop chunk src)) (offset + done)
              d d' c.device
              (subst (λ (bs : Bytes). IsStored bs (offset + done) d d') nx.bytes_next st)
              (subst (λ (o : ℕ). IsStored (take (want - done') (drop chunk src)) o d' c.device)
                (omega arith) more));
      }

-- The four ways that a round of copyAt can go.
module _ (t : Target) (fuel offset want done : ℕ) (s : Stream) (d : t.Device) where
  abbrev pub round : Read
  round = read_full (min buf_len (want - done)) s

  abbrev pub kept : Option ℕ × ℕ × t.Device
  kept = store_chunk t offset done round.bytes d

  pub copy_at_full :
      ltb done want ≡ false
      → copy_at t (suc fuel) offset want done s d
        ≡ record { done = done; error = none; stream = s; device = d }
  unfolding copy_at
  copy_at_full full = rw full

  pub copy_at_fault :
      {x : ℕ}
      → ltb done want ≡ true
      → kept.0 ≡ some x
      → copy_at t (suc fuel) offset want done s d ≡ record {
        done = kept.1;
        error = some (write_failed x);
        stream = round.stream;
        device = kept.2;
      }
  unfolding copy_at
  copy_at_fault more fault = rw more (rw fault)

  pub copy_at_end :
      {x : ReadError}
      → ltb done want ≡ true
      → kept.0 ≡ none
      → round.error ≡ some x
      → copy_at t (suc fuel) offset want done s d
        ≡ record { done = kept.1; error = copy_end x; stream = round.stream; device = kept.2 }
  unfolding copy_at
  copy_at_end more fine ended = rw more (rw fine (rw ended))

  pub copy_at_more :
      ltb done want ≡ true
      → kept.0 ≡ none
      → round.error ≡ none
      → copy_at t (suc fuel) offset want done s d
        ≡ copy_at t fuel offset want kept.1 round.stream kept.2
  unfolding copy_at
  copy_at_more more fine full = rw more (rw fine (rw full))

module _ (t : Target) (honest : IsHonest t) where
  pub copy_at-HasCopied :
      (fuel offset want done : ℕ) (s : Stream) (d : t.Device)
      → want - done ≤ s.left
      → (copy_at t fuel offset want done s d).error ≡ none
      → HasCopied t honest offset want done s d (copy_at t fuel offset want done s d)
  copy_at-HasCopied zero offset want done s d room h =
      unfold copy_at in
      HasCopied-full t honest offset want done s d _ (unfold copy_at in ground arith)
  copy_at-HasCopied (suc fuel) offset want done s d room h =
      let chunk = min buf_len (want - done) in
      let nx = read_full-IsNext chunk s (omega arith) in
      let r = round t fuel offset want done s d in
      let k = kept t fuel offset want done s d in
      elim (Bool-cases (ltb done want)) [
        | inr full ↦
            rw (copy_at_full t fuel offset want done s d full)
              (HasCopied-full t honest offset want done s d _ (ground arith))
        | inl more ↦ elim (Option-cases k.0) [
          | inr (x, fault) ↦
              let e = copy_at_fault t fuel offset want done s d more fault in
              let bad : some (write_failed x) ≡ none = rw e at h in cc
          | inl fine ↦
              let st = store_chunk-IsStored t honest offset done r.bytes d fine in
              elim (Option-cases r.error) [
                | inl full ↦
                    let e = copy_at_more t fuel offset want done s d more fine full in
                    rw e (
                      HasCopied-step t honest chunk offset want done k.1 s d k.2 r _ (omega arith)
                        (IsNext-long chunk s r nx full) nx st.0 st.1
                        (copy_at-HasCopied fuel offset want k.1 r.stream k.2
                          (omega (
                            arith,
                            st.0,
                            nx.left_next,
                            ap (λ (bs : Bytes). length bs) nx.bytes_next,
                          ))
                          (rw e at h)))
                | inr (x, ended) ↦
                    let e = copy_at_end t fuel offset want done s d more fine ended in
                    let ends : copy_end x ≡ none = rw e at h in
                    rw (e, ends)
                      (HasCopied-end t honest chunk offset want done k.1 s d k.2 r (omega arith)
                        (IsNext-short chunk s r nx ended) nx st.0 st.1)
              ]
        ]
      ]
