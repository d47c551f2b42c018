-- ===== src/Daemon/Backoff.antt =====
-- How long the daemon waits between its rounds, and how its run ends.
use oh_my_lan.Prelude.{
  ℕ, ◌≤◌, ◌≡◌, refl, Bool, true, false, some, List, [], ◌∷◌, ◌++◌, arith, All, ◌⊎◌, inl, inr,
  Bool-cases,
}
use oh_my_lan.Time.{second}
use oh_my_lan.Daemon.{
  Outcome, canceled, unauthorized, reload, failed, returned, Round, device_revoked, Run,
  max_backoff, next_backoff, step, run_loop, run,
}

abbrev pub IsBounded : ℕ → Type 0
IsBounded t = (second ≤ t) × (t ≤ max_backoff)

next_backoff-IsBounded : (b : ℕ) → IsBounded b → IsBounded (next_backoff b)
next_backoff-IsBounded b h = ground arith

step-waits :
    (b : ℕ) (o : Outcome) (quit : Bool) (later again : Run)
    → IsBounded b
    → All IsBounded later.waits
    → All IsBounded again.waits
    → All IsBounded (step b o quit later again).waits
step-waits b canceled quit later again h k l = tt
step-waits b unauthorized quit later again h k l = tt
step-waits b reload quit later again h k l = l
step-waits b failed true later again h k l = tt
step-waits b failed false later again h k l = (h, k)
step-waits b returned quit later again h k l = l

run_loop-waits :
    (b : ℕ) (rounds : List Round) → IsBounded b → All IsBounded (run_loop b rounds).waits
unfolding run_loop
run_loop-waits b [] h = tt
run_loop-waits b (r ∷ rounds) h = elim (Bool-cases r.done_before) [
  | inl done ↦ rw done tt
  | inr going ↦ rw going (
      step-waits b r.outcome r.done_waiting _ _ h
        (run_loop-waits (next_backoff b) rounds (next_backoff-IsBounded b h))
        (run_loop-waits second rounds (omega arith, omega arith)))
]

-- Every wait of the daemon lasts at least a second and at most a minute.
pub run-waits : (rounds : List Round) → All IsBounded (run rounds).waits
unfolding run
run-waits rounds = run_loop-waits second rounds (omega arith, omega arith)

-- a round that goes on: the context is not done, and the server has not refused the device
pub record GoesOn (r : Round) : Type 0 where
  pub before : r.done_before ≡ false
  pub waiting : r.done_waiting ≡ false
  pub outcome : (r.outcome ≡ reload) ⊎ ((r.outcome ≡ failed) ⊎ (r.outcome ≡ returned))

run_loop-revoked :
    (b : ℕ) (rounds rest : List Round) (r : Round)
    → All GoesOn rounds
    → r.done_before ≡ false
    → r.outcome ≡ unauthorized
    → (run_loop b (rounds ++ r ∷ rest)).exit ≡ some device_revoked
unfolding run_loop
run_loop-revoked b [] rest r h e u = rw (e, u) refl
run_loop-revoked b (q ∷ rounds) rest r h e u =
    let k : GoesOn q = h.0 in
    elim k.outcome [
      | inl o ↦ rw (k.before, o) (run_loop-revoked second rounds rest r h.1 e u)
      | inr (inl o) ↦
          rw (k.before, o, k.waiting) (run_loop-revoked (next_backoff b) rounds rest r h.1 e u)
      | inr (inr o) ↦ rw (k.before, o) (run_loop-revoked second rounds rest r h.1 e u)
    ]

-- After any rounds of failures, reloads and closed connections, a round whose outcome is that the
-- server refuses the device ends the daemon
-- with the error that says so; it does not try again.
pub run-revoked :
    (rounds rest : List Round) (r : Round)
    → All GoesOn rounds
    → r.done_before ≡ false
    → r.outcome ≡ unauthorized
    → (run (rounds ++ r ∷ rest)).exit ≡ some device_revoked
unfolding run
run-revoked rounds rest r h e u = run_loop-revoked second rounds rest r h e u
