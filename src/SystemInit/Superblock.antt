-- ===== src/SystemInit/Superblock.antt =====
-- ProbeSuperblock of decide.go: what a superblock must hold to be taken for ext4, and its label.
use Prim.Native.Nat.{bit_and}
use dc_1_pmos.Base.{
  ℕ, ◌≤◌, ◌≡◌, ◌≢◌, true, [], ◌∷◌, Bytes, codes, length, length-take, take, drop, inl, inr, All,
  arith, ltb, ◌==◌, ==_iff, Bool-cases,
}
use dc_1_pmos.SystemInit.Decide.{
  root_fs_type, superblock_size, word16_at, word32_at, until_nul, fs_type_of, probe_superblock,
}

-- A label: text without NUL, of no more than 16 bytes.
pub record IsLabel (label : Bytes) : Type 0 where
  pub no_nul : All (λ (b : ℕ). b ≢ 0) label
  pub is_short : length label ≤ 16

-- An ext superblock with extents or 64-bit block numbers: it is whole, and has the magic number.
pub record IsExt (sb : Bytes) : Type 0 where
  pub whole : superblock_size ≤ length sb
  pub magic_there : word16_at sb 56 ≡ 61267
  pub ext4_feature : bit_and (word32_at sb 96) 192 ≢ 0

until_nul-All : (bs : Bytes) → All (λ (b : ℕ). b ≢ 0) (until_nul bs)
unfolding until_nul
until_nul-All [] = tt
until_nul-All (b ∷ bs) = elim (Bool-cases (b == 0)) [
  | inl nul ↦ rw nul tt
  | inr byte ↦ rw byte (ground arith, until_nul-All bs)
]

length-until_nul : (bs : Bytes) → length (until_nul bs) ≤ length bs
unfolding until_nul
length-until_nul [] = omega arith
length-until_nul (b ∷ bs) = elim (Bool-cases (b == 0)) [
  | inl nul ↦ rw nul (omega arith)
  | inr byte ↦ rw byte (omega (arith, length-until_nul bs))
]

IsLabel-IsLabel : (bs : Bytes) → IsLabel (until_nul (take 16 bs))
IsLabel-IsLabel bs = record {
  no_nul = until_nul-All (take 16 bs);
  is_short = omega (arith, length-until_nul (take 16 bs), length-take 16 bs);
}

fs_type_of-ext4 :
    (compat incompat : ℕ) → fs_type_of compat incompat ≡ root_fs_type → bit_and incompat 192 ≢ 0
unfolding fs_type_of
fs_type_of-ext4 compat incompat h none =
    let no_extents : (bit_and incompat 192 == 0) ≡ true =
      (==_iff (bit_and incompat 192) 0).1 none in
    elim (Bool-cases (bit_and compat 4 == 0)) [
      | inl no_journal ↦
          let other : codes "ext2" ≡ codes "ext4" = (rw no_journal at (rw no_extents at h)) in
          absurd (ground arith)
      | inr journal ↦
          let other : codes "ext3" ≡ codes "ext4" = (rw journal at (rw no_extents at h)) in
          absurd (ground arith)
    ]

-- Whatever the bytes, the label that ProbeSuperblock reports has no NUL and at most 16 bytes, and it
-- reports ext4 only for a whole superblock with the magic number of ext and extents or 64-bit blocks.
pub probe_superblock-IsExt :
    (sb : Bytes)
    → IsLabel (probe_superblock sb).1 × ((probe_superblock sb).0 ≡ root_fs_type → IsExt sb)
unfolding probe_superblock
probe_superblock-IsExt sb = elim (Bool-cases (ltb (length sb) superblock_size)) [
  | inl short ↦ rw short (record { no_nul = tt; is_short = omega arith }, λ h. cc)
  | inr whole ↦ elim (Bool-cases (word16_at sb 56 == 61267)) [
    | inl magic ↦ rw whole (
        rw magic (
          IsLabel-IsLabel (drop 120 sb),
          λ h. record {
            whole = ground arith;
            magic_there = (==_iff (word16_at sb 56) 61267).0 magic;
            ext4_feature = fs_type_of-ext4 (word32_at sb 92) (word32_at sb 96) h;
          },
        ))
    | inr other ↦ rw whole (rw other (record { no_nul = tt; is_short = omega arith }, λ h. cc))
  ]
]
