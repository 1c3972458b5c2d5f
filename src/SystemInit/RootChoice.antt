-- ===== src/SystemInit/RootChoice.antt =====
-- SelectRoot of decide.go against what it promises.
use dc_1_pmos.Base.{
  ◌≡◌, ◌↔◌, refl, ap, subst, ◌∙◌, true, false, List, [], ◌∷◌, ◌++◌, Bytes, bytes_equal_iff, inl,
  inr, All, arith, Bool-cases, ok,
}
use dc_1_pmos.SystemInit.Decide.{
  Candidate, root_fs_type, root_label, is_root, matches, choose_root, select_root,
}

-- The one candidate that is ext4 with the installer's label, and its device.
pub record OnlyRoot (cands : List Candidate) (dev : Bytes) : Type 0 where
  pub before : List Candidate
  pub root : Candidate
  pub after : List Candidate
  pub all_cands : cands ≡ before ++ (root ∷ after)
  pub type_ext4 : root.fs_type ≡ root_fs_type
  pub label_ours : root.label ≡ root_label
  pub its_device : root.device ≡ dev
  pub none_before : All (λ (c : Candidate). is_root c ≡ false) before
  pub none_after : All (λ (c : Candidate). is_root c ≡ false) after

is_root-fields :
    (c : Candidate) → is_root c ≡ true → (c.fs_type ≡ root_fs_type) × (c.label ≡ root_label)
unfolding is_root
is_root-fields c h = (
  (bytes_equal_iff c.fs_type root_fs_type).0 (ground arith),
  (bytes_equal_iff c.label root_label).0 (ground arith),
)

fields-is_root :
    (c : Candidate) → c.fs_type ≡ root_fs_type → c.label ≡ root_label → is_root c ≡ true
unfolding is_root
fields-is_root c t l =
    rw ((bytes_equal_iff c.fs_type root_fs_type).1 t) ((bytes_equal_iff c.label root_label).1 l)

matches-none :
    (cands : List Candidate) → matches cands ≡ [] → All (λ (c : Candidate). is_root c ≡ false) cands
unfolding matches
matches-none [] h = tt
matches-none (c ∷ cs) h = elim (Bool-cases (is_root c)) [
  | inl root ↦ absurd (ground arith)
  | inr other ↦ (other, matches-none cs (rw other at h))
]

none-matches :
    (cands : List Candidate) → All (λ (c : Candidate). is_root c ≡ false) cands → matches cands ≡ []
unfolding matches
none-matches [] h = refl
none-matches (c ∷ cs) h = rw h.0 (none-matches cs h.1)

matches-one :
    (cands : List Candidate) (c : Candidate) → matches cands ≡ c ∷ [] → OnlyRoot cands c.device
unfolding matches
matches-one [] c h = cc
matches-one (x ∷ xs) c h = elim (Bool-cases (is_root x)) [
  | inl root ↦
      let shape : x ∷ matches xs ≡ c ∷ [] = (rw root at h) in
      let same : x ≡ c = cc in
      let rest : matches xs ≡ [] = cc in
      let (t, l) = is_root-fields x root in
      record {
        before = [];
        root = x;
        after = xs;
        all_cands = refl;
        type_ext4 = t;
        label_ours = l;
        its_device = ap (λ (y : Candidate). y.device) same;
        none_before = tt;
        none_after = matches-none xs rest;
      }
  | inr other ↦
      let r = matches-one xs c (rw other at h) in
      record {
        before = x ∷ r.before;
        root = r.root;
        after = r.after;
        all_cands = ap (λ (l : List Candidate). x ∷ l) r.all_cands;
        type_ext4 = r.type_ext4;
        label_ours = r.label_ours;
        its_device = r.its_device;
        none_before = (other, r.none_before);
        none_after = r.none_after;
      }
]

matches-split :
    (before : List Candidate) (c : Candidate) (after : List Candidate)
    → All (λ (x : Candidate). is_root x ≡ false) before
    → is_root c ≡ true
    → All (λ (x : Candidate). is_root x ≡ false) after
    → matches (before ++ (c ∷ after)) ≡ c ∷ []
unfolding matches
matches-split [] c after b r a = rw r (ap (λ (l : List Candidate). c ∷ l) (none-matches after a))
matches-split (x ∷ before) c after b r a = rw b.0 (matches-split before c after b.1 r a)

choose_root-ok :
    (cands found : List Candidate) {dev : Bytes}
    → choose_root cands found ≡ ok dev
    → (c : Candidate) × (found ≡ c ∷ []) × (c.device ≡ dev)
unfolding choose_root
choose_root-ok cands [] h = cc
choose_root-ok cands (c ∷ []) {dev} h = let same : c.device ≡ dev = cc in (c, refl, same)
choose_root-ok cands (c ∷ d ∷ found) h = cc

-- SelectRoot returns a device exactly if one candidate alone is ext4 with the installer's label, and
-- then that candidate's.
pub select_root-OnlyRoot :
    (cands : List Candidate) (dev : Bytes) → (select_root cands ≡ ok dev) ↔ OnlyRoot cands dev
unfolding select_root choose_root
select_root-OnlyRoot cands dev = (
  λ h.
      let (c, one, same) = choose_root-ok cands (matches cands) h in
      subst (OnlyRoot cands) same (matches-one cands c one),
  λ r.
      let root : is_root r.root ≡ true = fields-is_root r.root r.type_ext4 r.label_ours in
      let one : matches cands ≡ r.root ∷ [] =
        ap matches r.all_cands
        ∙ matches-split r.before r.root r.after r.none_before root r.none_after in
      rw one (ap (λ (d : Bytes). ok d) r.its_device),
)
