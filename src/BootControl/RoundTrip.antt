-- ===== src/BootControl/RoundTrip.antt =====
-- The layout of the control block against Parse of bootctl.go, and the exit codes of its Main.
use dc_1_pmos.Base.{
  ℕ, ◌+◌, ◌*◌, ◌/◌, ◌%◌, ◌<◌, ◌≡◌, ◌≢◌, ◌⊎◌, ◌↔◌, refl, sym, ◌∙◌, true, false, List, [], ◌∷◌, ◌++◌,
  some, inl, inr, arith, Bytes, codes, bytes_equal, bytes_equal_iff, word32, le32, u32_mod,
  Bool-cases, ok,
}
use dc_1_pmos.BootControl.{
  SlotMetadata, priority, tries, successful, Control, ControlReport, parse, dump, command_of, main,
  main_dumped,
}

-- The block as AOSP packs it.
abbrev pub block_of : Control → Bytes
block_of c =
    let (s0, s1, s2, s3) = c.slot_suffix in
    let (r0, r1) = c.reserved0 in
    let (a, b, d, e) = c.slots in
    let (q0, q1, q2, q3, q4, q5, q6, q7) = c.reserved1 in
    (s0 ∷ s1 ∷ s2 ∷ s3 ∷ [])
    ++ (le32 c.block_magic
        ++ ((c.version ∷ c.flags ∷ r0 ∷ r1 ∷ [])
            ++ ((a.priority_tries ∷ a.slot_flags ∷ b.priority_tries ∷ b.slot_flags ∷ [])
                ++ ((d.priority_tries ∷ d.slot_flags ∷ e.priority_tries ∷ e.slot_flags ∷ [])
                    ++ ((q0 ∷ q1 ∷ q2 ∷ q3 ∷ q4 ∷ q5 ∷ q6 ∷ q7 ∷ []) ++ le32 c.crc32_le)))))

word32-le32 :
    (n : ℕ)
    → n < u32_mod
    → word32 (n % 256) (n / 256 % 256) (n / 65536 % 256) (n / 16777216 % 256) ≡ n
unfolding word32
word32-le32 n h = omega arith

-- Parse reads every control block back whose magic and checksum are uint32s, whatever bytes follow it.
pub parse-block_of :
    (c : Control) (rest : Bytes)
    → c.block_magic < u32_mod
    → c.crc32_le < u32_mod
    → parse (block_of c ++ rest) ≡ ok c
unfolding parse le32
parse-block_of c rest m k = rw (word32-le32 c.block_magic m) (rw (word32-le32 c.crc32_le k))

-- The three numbers that are shown of a slot, 4, 3 and 1 bits wide, make up its byte.
pub slot_fields :
    (s : SlotMetadata)
    → s.priority_tries < 256
    → priority s + (16 * tries s + 128 * successful s) ≡ s.priority_tries
unfolding priority tries successful
slot_fields s h = omega arith

true_not_false : true ≢ false
true_not_false h = cc

two_not_zero : ◌≢◌ {A = ℕ} 2 0
two_not_zero h = omega arith

-- For a block that Dump can show, Main exits with 0 exactly if the command is `dump` or none; for every
-- other command it shows the same report and exits with 2.
pub main-dump :
    (args : List Bytes) (raw : Bytes) (r : ControlReport)
    → dump raw ≡ ok r
    → (((main args (some raw)).0 ≡ 0) ↔ (command_of args ≡ codes "dump"))
      × ((main args (some raw)).1 ≡ some r)
      × (((main args (some raw)).0 ≡ 0) ⊎ ((main args (some raw)).0 ≡ 2))
unfolding main main_dumped
main-dump args raw r h = elim (Bool-cases (bytes_equal (command_of args) (codes "dump"))) [
  | inl same ↦ rw h (
      rw same (
        (λ z. (bytes_equal_iff (command_of args) (codes "dump")).0 same, λ e. refl),
        refl,
        inl refl,
      ))
  | inr other ↦
      let differs : command_of args ≢ codes "dump" = λ e.
        true_not_false ((sym ((bytes_equal_iff (command_of args) (codes "dump")).1 e)) ∙ other) in
      rw h (rw other ((λ z. absurd (two_not_zero z), λ e. absurd (differs e)), refl, inr refl))
]
