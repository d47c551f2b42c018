-- ===== src/Api/Ports.antt =====
-- `PortAllocator` of internal/server/api/api.go: the lowest port of the pool that no service has.
use oh_my_lan.Prelude.{
  ℕ, zero, suc, ◌+◌, ◌-◌, ◌≤◌, ◌<◌, ◌≡◌, Bool, true, false, Option, none, some, List, arith, nat_eq,
  exists, if◌then◌else◌, Bool-cases, inl, inr,
}
use native.Mathlib.Decide.{ℕ_discrete}
use oh_my_lan.Exec.{Exec, pure, raise, gets, ◌>>=◌, on_error}
use oh_my_lan.Store.Services.{used_public_ports}
use oh_my_lan.Server.{Server, Fault, on_store}

abbrev pub taken : ℕ → List ℕ → Bool
taken port used = exists (λ p. nat_eq p port) used

-- The loop `for port := p.min; port <= p.max; port++`, with `rounds` ports left.
unfoldable pub search_port : List ℕ → ℕ → ℕ → Option ℕ
search_port used port zero = none
search_port used port (suc rounds) =
    let rest = search_port used (suc port) rounds in if taken port used then rest else some port

pub data AllocateError : Type 0 where
  pool_exhausted : AllocateError
  listing : Fault → AllocateError

unfoldable pub or_exhausted : Option ℕ → Exec Server AllocateError ℕ
or_exhausted none = raise pool_exhausted
or_exhausted (some port) = pure port

-- The allocator's lock is held throughout, so a call is one step.
unfoldable pub allocate : Exec Server AllocateError ℕ
unfolding search_port
allocate = do
  used ← on_error listing (on_store used_public_ports)
  env ← gets (λ w. w.env)
  or_exhausted (search_port used env.port_min (env.port_max + 1 - env.port_min))

-- the port that the loop finds: free, and with every lower one taken
pub record IsLowestFree (used : List ℕ) (from rounds port : ℕ) : Type 0 where
  pub in_range : (from ≤ port) × (port < from + rounds)
  pub free : taken port used ≡ false
  pub lowest : (q : ℕ) → from ≤ q → q < port → taken q used ≡ true

search_port-some :
    (used : List ℕ) (from rounds port : ℕ)
    → search_port used from rounds ≡ some port
    → IsLowestFree used from rounds port
unfolding search_port
search_port-some used from zero port e = cc
search_port-some used from (suc rounds) port e = elim (Bool-cases (taken from used)) [
  | inl full ↦
      let r = search_port-some used (suc from) rounds port (ground arith) in
      record {
        in_range = omega arith;
        free = r.free;
        lowest = λ q low high. elim (ℕ_discrete q from) [
          | yes here ↦ rw here full
          | no there ↦ r.lowest q (omega arith) high
        ];
      }
  | inr open_port ↦
      let here : port ≡ from = ground arith in
      record {
        in_range = omega arith;
        free = rw here open_port;
        lowest = λ q low high. absurd (omega arith);
      }
]

search_port-none :
    (used : List ℕ) (from rounds q : ℕ)
    → search_port used from rounds ≡ none
    → from ≤ q
    → q < from + rounds
    → taken q used ≡ true
unfolding search_port
search_port-none used from zero q e low high = absurd (omega arith)
search_port-none used from (suc rounds) q e low high = elim (ℕ_discrete q from) [
  | yes here ↦ rw here (ground arith)
  | no there ↦ search_port-none used (suc from) rounds q (ground arith) (omega arith) (omega arith)
]

-- The search of a pool finds the lowest free port of it, and finds none exactly when all ports of
-- the pool are taken.
pub search_port_lem :
    (used : List ℕ) (low high : ℕ)
    → ((port : ℕ)
        → search_port used low (high + 1 - low) ≡ some port
        → (low ≤ port)
          × (port ≤ high)
          × (taken port used ≡ false)
          × ((q : ℕ) → low ≤ q → q < port → taken q used ≡ true))
      × (search_port used low (high + 1 - low) ≡ none
          → (q : ℕ) → low ≤ q
          → q ≤ high
          → taken q used ≡ true)
search_port_lem used low high = (
  λ port e.
      let r = search_port-some used low (high + 1 - low) port e in
      (omega arith, omega arith, r.free, r.lowest),
  λ e q l h. search_port-none used low (high + 1 - low) q e l (omega arith),
)
