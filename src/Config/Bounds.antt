-- ===== src/Config/Bounds.antt =====
-- The ports of a configuration that was loaded.
use oh_my_lan.Prelude.{
  ℕ, ◌≡◌, refl, ◌≤◌, ◌+◌, ◌-◌, String, Bool, false, ◌||◌, ◌==◌, Option, none, some, List, ℤ, pos,
  negsuc, greater, arith, inl, inr, Bool-cases,
}
use oh_my_lan.Exec.{Result, ok, err}
use oh_my_lan.Exec.Establishes.{passed}
use oh_my_lan.Files.{ReadResult, missing, unreadable, content}
use oh_my_lan.Api.Ports.{search_port, taken, search_port_lem}
use oh_my_lan.Config.{
  ServerConfig, ConfigError, validate, load_server, default_server_config, not_positive, validated,
  checked_config, parsed_config,
}

-- a pool of ports: not empty, and all of them ports
pub record IsPool (c : ServerConfig) (low high : ℕ) : Type 0 where
  pub min : c.port_pool.min ≡ pos low
  pub max : c.port_pool.max ≡ pos high
  pub bounds : (1 ≤ low) × (low ≤ high) × (high ≤ 65535)

abbrev HasPool : ServerConfig → Type 0
HasPool c = (low : ℕ) × (high : ℕ) × IsPool c low high

pool_bounds :
    (a b : ℤ)
    → not_positive a || not_positive b || greater a b ≡ false
    → greater a (pos 65535) || greater b (pos 65535) ≡ false
    → (low : ℕ) × (high : ℕ) × ((a ≡ pos low)
        × (b ≡ pos high)
        × ((1 ≤ low) × (low ≤ high) × (high ≤ 65535)))
pool_bounds (pos a) (pos b) h k = (a, b, (refl, refl, (ground arith, ground arith, ground arith)))
pool_bounds (pos a) (negsuc b) h k = absurd (ground arith)
pool_bounds (negsuc a) b h k = absurd (ground arith)

abbrev bad_order : ServerConfig → Bool
bad_order c =
    not_positive c.port_pool.min
    || not_positive c.port_pool.max
    || greater c.port_pool.min c.port_pool.max

abbrev bad_height : ServerConfig → Bool
bad_height c = greater c.port_pool.min (pos 65535) || greater c.port_pool.max (pos 65535)

validate-HasPool : (c : ServerConfig) → validate c ≡ ok tt → HasPool c
unfolding validate
validate-HasPool c e =
    let (_, e1) = passed (c.listen_addr == "") _ _ _ e in
    let (_, e2) = passed (c.chisel_listen_addr == "") _ _ _ e1 in
    let (_, e3) = passed (c.data_dir == "") _ _ _ e2 in
    let (order, e4) = passed (bad_order c) _ _ _ e3 in
    let (height, _) = passed (bad_height c) _ _ _ e4 in
    let (low, high, (min, max, bounds)) =
      pool_bounds c.port_pool.min c.port_pool.max order height in
    (low, high, record { min = min; max = max; bounds = bounds })

checked_config-HasPool :
    (yaml : ServerConfig → String → Option ServerConfig) (r : ReadResult) (c : ServerConfig)
    → parsed_config yaml r ≡ ok c
    → HasPool c
checked_config-HasPool yaml missing c e = absurd (cc e)
checked_config-HasPool yaml unreadable c e = absurd (cc e)
checked_config-HasPool yaml (content text) c e = of_option (yaml default_server_config text) e
  where
    of_check :
        (d : ServerConfig) (r : Result ConfigError (Unit {0}))
        → validate d ≡ r
        → validated d r ≡ ok c
        → HasPool c
    of_check d (ok tt) v e = let same : d ≡ c = cc e in rw (← same) (validate-HasPool d v)
    of_check d (err x) v e = absurd (cc e)

    of_option : (o : Option ServerConfig) → checked_config o ≡ ok c → HasPool c
    of_option none e = absurd (cc e)
    of_option (some d) e = of_check d (validate d) refl e

load_server-HasPool :
    (yaml : ServerConfig → String → Option ServerConfig) (read : String → ReadResult)
    (path : String) (c : ServerConfig)
    → load_server yaml read path ≡ ok c
    → HasPool c
unfolding load_server
load_server-HasPool yaml read path c e = elim (Bool-cases (path == "")) [
  | inl empty ↦
      let same : default_server_config ≡ c = cc (empty, e) in
      rw (← same) (
        40000,
        49999,
        record { min = refl; max = refl; bounds = (omega arith, omega arith, omega arith) },
      )
  | inr there ↦ checked_config-HasPool yaml (read path) c (ground (arith, e, there))
]

-- With a configuration that was loaded, a port that the allocator finds is from 1 to 65535, in the
-- configured pool, and taken by no service.
pub load_server-search_port :
    (yaml : ServerConfig → String → Option ServerConfig) (read : String → ReadResult)
    (path : String) (c : ServerConfig) (low high port : ℕ) (used : List ℕ)
    → load_server yaml read path ≡ ok c
    → c.port_pool.min ≡ pos low
    → c.port_pool.max ≡ pos high
    → search_port used low (high + 1 - low) ≡ some port
    → (1 ≤ port) × (port ≤ 65535) × (low ≤ port) × (port ≤ high) × (taken port used ≡ false)
load_server-search_port yaml read path c low high port used e min max found =
    let (low', high', p) = load_server-HasPool yaml read path c e in
    let (at_least, at_most, free, _) = (search_port_lem used low high).0 port found in
    let (one, order, top) = p.bounds in
    let same_low : low' ≡ low = cc (p.min, min) in
    let same_high : high' ≡ high = cc (p.max, max) in
    (omega (arith, same_low), omega (arith, same_high), at_least, at_most, free)
