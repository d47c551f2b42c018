-- ===== src/Tunnel/Specs.antt =====
-- What chisel is told, against the remotes and locals that it is told about.
use oh_my_lan.Prelude.{
  ◌≡◌, refl, false, String, List, [], ◌∷◌, ◌++◌, map, All, arith, ◌||◌, ◌==◌, Bool-cases, inl, inr,
}
use oh_my_lan.Exec.{Result, ok, err}
use oh_my_lan.Tunnel.{
  Remote, Local, SpecError, validate_local, local_spec, validate_remote, remote_spec, and_spec,
  local_specs, all_specs, new_client,
}

-- what a list of specs that is not refused is
abbrev pub AreSpecs : List Remote → List Local → List String → Type 0
AreSpecs rs ls specs =
    (specs ≡ map remote_spec rs ++ map local_spec ls)
    × (All (λ r. validate_remote r ≡ ok tt) rs)
    × (All (λ l. validate_local l ≡ ok tt) ls)

-- a list that is told begins with a spec whose check has passed
and_spec-ok :
    (v : Result SpecError (Unit {0})) (spec : String) (rest : Result SpecError (List String))
    (specs : List String)
    → and_spec v spec rest ≡ ok specs
    → (v ≡ ok tt) × ((tail : List String) × (rest ≡ ok tail) × (specs ≡ spec ∷ tail))
and_spec-ok (err x) spec rest specs e = absurd (cc e)
and_spec-ok (ok tt) spec (err x) specs e = absurd (cc e)
and_spec-ok (ok tt) spec (ok tail) specs e = (refl, (tail, refl, cc e))

local_specs-ok :
    (ls : List Local) (specs : List String) → local_specs ls ≡ ok specs → AreSpecs [] ls specs
unfolding local_specs
local_specs-ok [] specs e = (cc e, tt, tt)
local_specs-ok (l ∷ ls) specs e =
    let (v, (tail, rest, same)) =
      and_spec-ok (validate_local l) (local_spec l) (local_specs ls) specs e in
    let (told, none, passed) = local_specs-ok ls tail rest in (cc (same, told), tt, (v, passed))

all_specs-ok :
    (rs : List Remote) (ls : List Local) (specs : List String)
    → all_specs rs ls ≡ ok specs
    → AreSpecs rs ls specs
unfolding all_specs
all_specs-ok [] ls specs e = local_specs-ok ls specs e
all_specs-ok (r ∷ rs) ls specs e =
    let (v, (tail, rest, same)) =
      and_spec-ok (validate_remote r) (remote_spec r) (all_specs rs ls) specs e in
    let (told, passed, passed') = all_specs-ok rs ls tail rest in
    (cc (same, told), (v, passed), passed')

-- If a client is built, chisel is told the spec of each remote and then of each local, in their
-- order, each of which passes its check, and the address and the credentials are not empty.
pub new_client-ok :
    (server_url device_id secret : String) (rs : List Remote) (ls : List Local)
    (specs : List String)
    → new_client server_url device_id secret rs ls ≡ ok specs
    → AreSpecs rs ls specs
      × (server_url == "" ≡ false)
      × (device_id == "" ≡ false)
      × (secret == "" ≡ false)
unfolding new_client
new_client-ok server_url device_id secret rs ls specs e = elim (Bool-cases (server_url == "")) [
  | inl none ↦ absurd (ground (arith, e, none))
  | inr url ↦ elim (Bool-cases (device_id == "" || secret == "")) [
    | inl none ↦ absurd (ground (arith, e, none, url))
    | inr some ↦
        (all_specs-ok rs ls specs (ground (arith, e, url, some)), url, ground arith, ground arith)
  ]
]
