-- ===== src/Accounts/Retry.antt =====
-- How often a command is tried.
use oh_my_lan.Prelude.{
  ℕ, zero, suc, ◌≤◌, ◌+◌, ◌≡◌, refl, String, false, List, arith, inl, inr, Bool-cases,
}
use oh_my_lan.Accounts.{System, State, Ran, try_again, settle, run}

module _ (O : System) (count : State O → ℕ) where
  settle-tries :
      (left : ℕ) (name : String) (args : List String) (r : Ran × State O)
      → ((s : State O) → count (O.wait s).1 ≤ count s)
      → ((s : State O) → count (O.exec name args s).1 ≤ count s + 1)
      → count (settle O left name args r).1 ≤ count r.1 + left
  unfolding settle
  settle-tries zero name args (r, s) waits execs = omega arith
  settle-tries (suc left) name args (r, s) waits execs = elim (Bool-cases (try_again r)) [
    | inr settled ↦ rw settled (omega arith)
    | inl busy ↦ elim (Bool-cases (O.wait s).0) [
      | inl done ↦ rw (busy, done) (omega (arith, waits s))
      | inr going ↦
          rw (busy, going)
            (omega (
              arith,
              waits s,
              execs (O.wait s).1,
              settle-tries left name args (O.exec name args (O.wait s).1) waits execs,
            ))
    ]
  ]

  -- A command is executed at most five times, by any count of its executions that waiting does not
  -- raise; and once if its output does not say that the user database is locked, with that result.
  pub run-tries :
      (name : String) (args : List String) (s : State O)
      → ((s : State O) → count (O.wait s).1 ≤ count s)
      → ((s : State O) → count (O.exec name args s).1 ≤ count s + 1)
      → (count (run O name args s).1 ≤ count s + 5)
        × (try_again (O.exec name args s).0 ≡ false → run O name args s ≡ O.exec name args s)
  unfolding run settle
  run-tries name args s waits execs = (
    omega (arith, execs s, settle-tries 4 name args (O.exec name args s) waits execs),
    λ settled. rw settled refl,
  )
