-- ===== src/ImageWrite/Target/Contents.antt =====
-- What a stretch of the device holds after a write: the laws of `segment` and `overwrite`.
use dc_1_pmos.Base.{
  ℕ, zero, suc, ◌+◌, ◌-◌, ◌≤◌, ◌<◌, ◌≡◌, refl, ap, subst, ◌∙◌, [], ◌∷◌, ◌++◌, arith, Bytes, length,
  get_or, replicate, length-replicate,
}
use dc_1_pmos.ImageWrite.Target.{segment, overwrite}

pub segment-ext :
    (f g : ℕ → ℕ) (off n : ℕ)
    → ((i : ℕ) → off ≤ i → i < off + n → f i ≡ g i)
    → segment f off n ≡ segment g off n
segment-ext f g off zero h = refl
segment-ext f g off (suc n) h =
    rw (h off (omega arith) (omega arith))
      (ap (◌∷◌ (g off)) (segment-ext f g (suc off) n (λ i a b. h i (omega arith) (omega arith))))

pub segment-add :
    (f : ℕ → ℕ) (m n off : ℕ) → segment f off (m + n) ≡ segment f off m ++ segment f (off + m) n
segment-add f zero n off =
    let e : zero + n ≡ n = omega arith in let e' : off + zero ≡ off = omega arith in rw (e, e')
segment-add f (suc m) n off =
    let e : suc m + n ≡ suc (m + n) = omega arith in
    let e' : off + suc m ≡ suc off + m = omega arith in
    rw (e, e') (ap (◌∷◌ (f off)) (segment-add f m n (suc off)))

segment-get_or : (bs : Bytes) (off : ℕ) → segment (λ i. get_or bs (i - off) 0) off (length bs) ≡ bs
segment-get_or [] off = refl
segment-get_or (b ∷ bs) off =
    let e : off - off ≡ zero = omega arith in
    rw e (
      ap (◌∷◌ b) (
        segment-ext _ (λ i. get_or bs (i - suc off) 0) (suc off) (length bs)
          (λ i a c. let e' : i - off ≡ suc (i - suc off) = omega arith in rw e')
        ∙ segment-get_or bs (suc off)))

module _ (f : ℕ → ℕ) (bs : Bytes) (off : ℕ) where
  pub segment-overwrite_self : segment (overwrite f bs off) off (length bs) ≡ bs
  segment-overwrite_self =
      segment-ext _ (λ i. get_or bs (i - off) 0) off (length bs) (λ i a b. ground arith)
      ∙ segment-get_or bs off

  pub segment-overwrite_after :
      (lo n : ℕ) → off + length bs ≤ lo → segment (overwrite f bs off) lo n ≡ segment f lo n
  segment-overwrite_after lo n h = segment-ext _ f lo n (λ i a b. ground arith)

  pub segment-overwrite_before :
      (lo n : ℕ) → lo + n ≤ off → segment (overwrite f bs off) lo n ≡ segment f lo n
  segment-overwrite_before lo n h = segment-ext _ f lo n (λ i a b. ground arith)

pub segment-overwrite_zeros :
    (f : ℕ → ℕ) (n off : ℕ) → segment (overwrite f (replicate n 0) off) off n ≡ replicate n 0
segment-overwrite_zeros f n off =
    subst (λ k. segment (overwrite f (replicate n 0) off) off k ≡ replicate n 0)
      (length-replicate {A = ℕ} n 0) (segment-overwrite_self f (replicate n 0) off)

pub length-segment : (f : ℕ → ℕ) (off n : ℕ) → length (segment f off n) ≡ n
length-segment f off zero = refl
length-segment f off (suc n) = ap suc (length-segment f (suc off) n)
