-- ===== src/InstallerInit/Dialogs.antt =====
-- The dialog server of the installation init: serveOne and serveDialogs of
-- installer/gotools/internal/installerinit/dialog.go with the function that Run gives them. The state is the lock of the
-- panel. Requests are served one after the other; one that waits for a lock that is never given back stops
-- the server.
use dc_1_pmos.Base.{
  ℕ, ◌<◌, ◌≡◌, refl, Bool, true, false, List, [], ◌∷◌, map, Option, none, some, if◌then◌else◌,
  Bytes, length, All, arith, Option-cases, if_both, subst, sym, inl, inr,
}
use dc_1_pmos.Std.Strconv.{ℤ}
use dc_1_pmos.Ask.Dialogs.{Tap, run}

-- A request: the arguments, if they decode, whether the touchscreen opens, and the taps that arrive.
pub record Request : Type 0 where
  pub args : Option (List Bytes)
  pub has_touch : Bool
  pub taps : List Tap

-- What the client sees: an exit code with what is printed, a connection that closes, or nothing.
pub data Served : Type 0 where
  responded : ℕ → Bytes → Served
  closed blocked : Served

unfoldable pub is_blocked : Served → Bool
is_blocked blocked = true
is_blocked _ = false

-- not answered by a dialog
unfoldable pub is_answered : Served → Bool
is_answered (responded rc out) = true
is_answered _ = false

abbrev pub Unanswered : Served → Type 0
Unanswered s = is_answered s ≡ false

abbrev pub Opens : Request → Type 0
Opens r = r.has_touch ≡ true

none_served : (rs : List Request) → All Unanswered (map (λ r. blocked) rs)
unfolding is_answered
none_served [] = tt
none_served (r ∷ rs) = (refl, none_served rs)

module _ (width : ℕ → Bytes → ℤ) (w h : ℕ) where
  -- behind the dialog: a panic is recovered from, and the lock stays held
  unfoldable pub after_run : Option (ℕ × Bytes) → Served × Bool
  after_run none = (closed, true)
  after_run (some (rc, out)) = (responded rc out, false)

  unfoldable pub with_touch : Bool → Bool → List Bytes → List Tap → Served × Bool
  with_touch false held args taps = (responded 2 [], held)
  with_touch true true args taps = (blocked, true)
  with_touch true false args taps = after_run (run width w h taps args)

  -- serveOne: what the client sees, and whether the lock is held behind it
  unfoldable pub serve_one : Request → Bool → Served × Bool
  serve_one r held = elim r.args [
    | none ↦ (closed, held)
    | some args ↦ with_touch r.has_touch held args r.taps
  ]

  -- serveDialogs
  unfoldable pub serve_dialogs : List Request → Bool → List Served
  serve_dialogs [] held = []
  serve_dialogs (r ∷ rs) held =
      let (s, held') = serve_one r held in
      let rest = serve_dialogs rs held' in
      s ∷ (if is_blocked s then map (λ r'. blocked) rs else rest)

  -- With the lock held, a request that would show a dialog is not answered, and holds it still.
  serve_one_held :
      (r : Request)
      → r.has_touch ≡ true
      → Unanswered (serve_one r true).0 × ((serve_one r true).1 ≡ true)
  unfolding serve_one with_touch is_answered
  serve_one_held r opens = elim (Option-cases r.args) [
    | inl garbled ↦ rw garbled (refl, refl)
    | inr (args, decoded) ↦ rw decoded (rw opens (refl, refl))
  ]

  held-Unanswered : (rs : List Request) → All Opens rs → All Unanswered (serve_dialogs rs true)
  unfolding serve_dialogs
  held-Unanswered [] h = tt
  held-Unanswered (r ∷ rs) h =
      let (here, held) = serve_one_held r h.0 in
      (
        here,
        if_both (λ (ss : List Served). All Unanswered ss) (is_blocked (serve_one r true).0)
            (none_served rs)
            (subst (λ (b : Bool). All Unanswered (serve_dialogs rs b)) (sym held)
              (held-Unanswered rs h.1)),
      )

  -- A request of fewer than two arguments panics in run; behind it, as long as the touchscreen opens, no
  -- request is answered by a dialog again: the lock of the panel stays held.
  pub short_request-Unanswered :
      (args : List Bytes) (taps : List Tap) (rs : List Request)
      → length args < 2
      → All Opens rs
      → All Unanswered
          (serve_dialogs (record { args = some args; has_touch = true; taps = taps } ∷ rs) false)
  unfolding serve_dialogs serve_one with_touch after_run run is_answered is_blocked
  short_request-Unanswered [] taps rs short h = (refl, held-Unanswered rs h)
  short_request-Unanswered (a ∷ []) taps rs short h = (refl, held-Unanswered rs h)
  short_request-Unanswered (a ∷ b ∷ more) taps rs short h = absurd (omega arith)
