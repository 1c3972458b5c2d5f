-- ===== src/ImageWrite/Writer/Ends.antt =====
-- copyAt of imagewrite.go ends on every target, and without an error if the device takes every
-- write and the source delivers what is wanted.
use dc_1_pmos.Base.{
  ℕ, zero, suc, ◌+◌, ◌-◌, ◌≤◌, ◌<◌, min, ◌≡◌, ◌≢◌, refl, ap, true, [], ◌∷◌, Option, none, some, inl,
  inr, arith, ltb, Bytes, length, Bool-cases, Option-cases, length-take, length-drop, ltb→lt,
  ltb-false,
}
use dc_1_pmos.ImageWrite.Reader.{flat, Stream, Read}
use dc_1_pmos.ImageWrite.Reader.Laws.{read_full-IsNext, IsNext-long, IsNext-enough}
use dc_1_pmos.ImageWrite.Target.{Target, IsReliable}
use dc_1_pmos.ImageWrite.Writer.{buf_len, stuck, store_chunk, copy_at}
use dc_1_pmos.ImageWrite.Writer.Copy.{
  buf_len_pos, copy_end-ne-stuck, round, kept, copy_at_full, copy_at_fault, copy_at_end,
  copy_at_more, store_chunk_count,
}

-- The count and the limit after a full round of copyAt.
module _ (t : Target) (fuel offset want done : ℕ) (s : Stream) (d : t.Device) where
  abbrev r : Read
  r = round t fuel offset want done s d

  abbrev k : Option ℕ × ℕ × t.Device
  k = kept t fuel offset want done s d

  next_round :
      ltb done want ≡ true
      → want - done ≤ s.left
      → k.0 ≡ none
      → r.error ≡ none
      → (want - k.1 < want - done)
        × (want - k.1 ≤ r.stream.left)
        × (k.1 ≡ done + min buf_len (want - done))
  next_round more room fine full =
      let n = min buf_len (want - done) in
      let nx = read_full-IsNext n s (omega arith) in
      let long = IsNext-long n s r nx full in
      let len = length-take n (flat s.source.chunks) in
      let count = store_chunk_count t offset done r.bytes d fine in
      let bytes = ap (λ (bs : Bytes). length bs) nx.bytes_next in
      let lt = ltb→lt done want more in omega (arith, buf_len_pos, nx.left_next)

store_chunk_reliable :
    (t : Target) (offset done : ℕ) (bs : Bytes) (d : t.Device)
    → IsReliable t
    → (store_chunk t offset done bs d).0 ≡ none
unfolding store_chunk
store_chunk_reliable t offset done [] d rel = refl
store_chunk_reliable t offset done (b ∷ bs) d rel =
    rw (rel.writes (b ∷ bs) (offset + done) d, store_chunk)

pub copy_at-ne-stuck :
    (t : Target) (fuel offset want done : ℕ) (s : Stream) (d : t.Device)
    → want - done ≤ s.left
    → want - done ≤ fuel
    → (copy_at t fuel offset want done s d).error ≢ some stuck
copy_at-ne-stuck t zero offset want done s d room enough =
    unfold copy_at in rw (ltb-false done want (omega arith)) (λ q. cc)
copy_at-ne-stuck t (suc fuel) offset want done s d room enough = elim (Bool-cases (ltb done want)) [
  | inr full ↦ rw (copy_at_full t fuel offset want done s d full) (λ q. cc)
  | inl more ↦ elim (Option-cases (kept t fuel offset want done s d).0) [
    | inr (x, fault) ↦ rw (copy_at_fault t fuel offset want done s d more fault) (λ q. cc)
    | inl fine ↦ elim (Option-cases (round t fuel offset want done s d).error) [
      | inr (x, ended) ↦
          rw (copy_at_end t fuel offset want done s d more fine ended) (copy_end-ne-stuck x)
      | inl full ↦
          let nxt = next_round t fuel offset want done s d more room fine full in
          rw (copy_at_more t fuel offset want done s d more fine full)
            (copy_at-ne-stuck t fuel offset want _ _ _ nxt.1 (omega arith))
    ]
  ]
]

-- On a device that takes every write, a source that has what is wanted is copied whole.
pub copy_at_reliable :
    (t : Target) (fuel offset want done : ℕ) (s : Stream) (d : t.Device)
    → IsReliable t
    → want - done ≤ s.left
    → want - done ≤ fuel
    → want - done ≤ length (flat s.source.chunks)
    → (copy_at t fuel offset want done s d).error ≡ none
copy_at_reliable t zero offset want done s d rel room enough long =
    unfold copy_at in rw (ltb-false done want (omega arith))
copy_at_reliable t (suc fuel) offset want done s d rel room enough long =
    elim (Bool-cases (ltb done want)) [
      | inr full ↦ rw (copy_at_full t fuel offset want done s d full)
      | inl more ↦
          let n = min buf_len (want - done) in
          let nx = read_full-IsNext n s (omega arith) in
          let fine : (kept t fuel offset want done s d).0 ≡ none =
            store_chunk_reliable t offset done (round t fuel offset want done s d).bytes d rel in
          let full = IsNext-enough n s _ nx (omega arith) in
          let nxt = next_round t fuel offset want done s d more room fine full in
          rw (copy_at_more t fuel offset want done s d more fine full) (
            copy_at_reliable t fuel offset want _ _ _ rel nxt.1 (omega arith)
              (rw nx.rest_next (omega (arith, length-drop n (flat s.source.chunks)))))
    ]
