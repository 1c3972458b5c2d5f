-- ===== src/SystemInit/Entitled.antt =====
-- Which process Main of systeminit.go lets act, and as what.
use dc_1_pmos.Base.{
  ℕ, ◌≡◌, ◌≢◌, ap, true, false, [], some, inl, inr, codes, bytes_equal, bytes_equal_iff, length,
  arith, ◌==◌, ==_iff, Bool-cases, ok, err, and_both, Result-cases,
}
use dc_1_pmos.SystemInit.Ops.{Machine, Done, Log}
use dc_1_pmos.SystemInit.Rescue.{Role, watchdog, kmsg, shell, role_name, Ending, exited}
use dc_1_pmos.SystemInit.Handoff.{boot}
use dc_1_pmos.SystemInit.Watchdog.{run_helper}
use dc_1_pmos.SystemInit.Start.{
  Flags, Process, ArgsError, names, check_helper, parse_args, init_allowed, helper_allowed, role_of,
  config_of, run_named, start, main,
}

module _ (o : Machine) (p : Process) (f : Flags) (passes rounds : ℕ) where
  -- the process is the init, or one of its helpers, and does what that one does
  pub data IsEntitled : Type 0 where
    as_init :
        length f.helper ≡ 0
        → p.pid ≡ 1
        → main o p f passes rounds [] ≡ boot o (config_of p f) passes []
        → IsEntitled
    as_helper :
        (role : Role)
        → f.helper ≡ role_name role
        → p.ppid ≡ 1
        → p.marker ≡ codes "1"
        → main o p f passes rounds [] ≡ run_helper o (config_of p f) rounds f.tty role []
        → IsEntitled

-- a role that ParseArgs lets through is one that runHelper knows
record IsKnown (f : Flags) : Type 0 where
  role : Role
  found : role_of f ≡ some role
  name : f.helper ≡ role_name role

names-IsKnown : (f : Flags) (role : Role) → names f role ≡ true → role_of f ≡ some role → IsKnown f
unfolding names
names-IsKnown f role h found = record {
  role = role;
  found = found;
  name = (bytes_equal_iff f.helper (role_name role)).0 h;
}

check_helper-IsKnown :
    (f : Flags) → check_helper f ≡ ok tt → (length f.helper == 0) ≡ false → IsKnown f
unfolding check_helper role_of
check_helper-IsKnown f h filled = elim (Bool-cases (names f watchdog)) [
  | inl a ↦ names-IsKnown f watchdog a (rw (a, role_of))
  | inr a ↦ elim (Bool-cases (names f kmsg)) [
    | inl b ↦ names-IsKnown f kmsg b (rw (a, b, role_of))
    | inr b ↦ elim (Bool-cases (names f shell)) [
      | inl c ↦ names-IsKnown f shell c (rw (a, b, c, role_of))
      | inr c ↦ absurd (ground (arith, a, b, c, filled))
    ]
  ]
]

parse_args-helper : (f : Flags) {u : Done} → parse_args f ≡ ok u → check_helper f ≡ ok tt
unfolding parse_args
parse_args-helper f {u} h = elim (Result-cases (check_helper f)) [
  | inl (v, e) ↦ e
  | inr (v, e) ↦ absurd (ground (arith, e))
]

module _ (o : Machine) (p : Process) (f : Flags) (passes rounds : ℕ) where
  Ended : Ending → Type 0
  Ended ending = main o p f passes rounds [] ≡ (ending, [])

  wrong_args-Ended : {e : ArgsError} → parse_args f ≡ err e → Ended (exited 2)
  unfolding Ended main
  wrong_args-Ended wrong = rw (wrong, main)

  refused-Ended :
      {u : Done}
      → parse_args f ≡ ok u
      → f.dry_run ≡ false
      → (length f.helper == 0) ≡ true
      → init_allowed p.pid ≡ false
      → Ended (exited 1)
  unfolding Ended main start
  refused-Ended parsed wet empty other = rw (parsed, main, wet, empty, other)

  started_by_hand-Ended :
      {u : Done}
      → parse_args f ≡ ok u
      → f.dry_run ≡ false
      → (length f.helper == 0) ≡ false
      → helper_allowed p.ppid p.marker ≡ false
      → Ended (exited 1)
  unfolding Ended main start
  started_by_hand-Ended parsed wet filled other = rw (parsed, main, wet, filled, other)

  main-boot :
      {u : Done}
      → parse_args f ≡ ok u
      → f.dry_run ≡ false
      → (length f.helper == 0) ≡ true
      → init_allowed p.pid ≡ true
      → main o p f passes rounds [] ≡ boot o (config_of p f) passes []
  unfolding main start
  main-boot parsed wet empty allowed = rw (parsed, main, wet, empty, allowed)

  main-run_helper :
      {u : Done} {role : Role}
      → parse_args f ≡ ok u
      → f.dry_run ≡ false
      → (length f.helper == 0) ≡ false
      → helper_allowed p.ppid p.marker ≡ true
      → role_of f ≡ some role
      → main o p f passes rounds [] ≡ run_helper o (config_of p f) rounds f.tty role []
  unfolding main start run_named
  main-run_helper parsed wet filled allowed known = rw (parsed, main, wet, filled, allowed, known)

module _ (o : Machine) (p : Process) (f : Flags) (passes rounds : ℕ) {u : Done}
    (parsed : parse_args f ≡ ok u) (acted : (main o p f passes rounds []).1 ≢ []) where
  idle : {ending : Ending} → main o p f passes rounds [] ≡ (ending, []) → ⊥
  idle e = acted (ap (λ (s : Ending × Log). s.1) e)

  is_wet : f.dry_run ≡ false
  unfolding main start
  is_wet = elim (Bool-cases f.dry_run) [
    | inl dry ↦ absurd (idle {ending = exited 0} (rw (parsed, main, dry)))
    | inr wet ↦ wet
  ]

  init-IsEntitled : (length f.helper == 0) ≡ true → IsEntitled o p f passes rounds
  unfolding init_allowed Ended
  init-IsEntitled empty = elim (Bool-cases (init_allowed p.pid)) [
    | inl allowed ↦
        as_init ((==_iff (length f.helper) 0).0 empty) ((==_iff p.pid 1).0 allowed)
          (main-boot o p f passes rounds parsed is_wet empty allowed)
    | inr other ↦ absurd (idle (refused-Ended o p f passes rounds parsed is_wet empty other))
  ]

  helper-IsEntitled : (length f.helper == 0) ≡ false → IsEntitled o p f passes rounds
  unfolding helper_allowed Ended
  helper-IsEntitled filled = elim (Bool-cases (helper_allowed p.ppid p.marker)) [
    | inl allowed ↦
        let known = check_helper-IsKnown f (parse_args-helper f parsed) filled in
        let (parent, mark) =
          and_both {b = p.ppid == 1} {c = bytes_equal p.marker (codes "1")} allowed in
        as_helper known.role known.name ((==_iff p.ppid 1).0 parent)
          ((bytes_equal_iff p.marker (codes "1")).0 mark)
          (main-run_helper o p f passes rounds parsed is_wet filled allowed known.found)
    | inr other ↦
        absurd (idle (started_by_hand-Ended o p f passes rounds parsed is_wet filled other))
  ]

-- If Main, with an empty log, has called anything, then the run was not dry, and either no helper was
-- asked for, the process has the number 1 and Main does what boot does, or a known helper was asked for,
-- the parent has the number 1, the mark of a helper is set and Main does what that helper does.
pub main-IsEntitled :
    (o : Machine) (p : Process) (f : Flags) (passes rounds : ℕ)
    → (main o p f passes rounds []).1 ≢ []
    → (f.dry_run ≡ false) × IsEntitled o p f passes rounds
unfolding Ended
main-IsEntitled o p f passes rounds acted = elim (Result-cases (parse_args f)) [
  | inl (u, parsed) ↦ (
    is_wet o p f passes rounds parsed acted,
    elim (Bool-cases (length f.helper == 0)) [
      | inl empty ↦ init-IsEntitled o p f passes rounds parsed acted empty
      | inr filled ↦ helper-IsEntitled o p f passes rounds parsed acted filled
    ],
  )
  | inr (e, wrong) ↦
      absurd (acted (ap (λ (s : Ending × Log). s.1) (wrong_args-Ended o p f passes rounds wrong)))
]
