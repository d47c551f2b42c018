-- ===== src/Examples/Daemon.antt =====
-- Runs of the daemon, and what it is told.
use oh_my_lan.Prelude.{
  ◌≡◌, refl, true, false, [], ◌∷◌, map, ◌==◌, pos, All, ltb, length, select, if◌then◌else◌,
}
use oh_my_lan.Api.RateLimit.{allow, fail_times, recent, max_fail, failures_of, allow_lem}
use oh_my_lan.Tunnel.{Remote, new_client}
use oh_my_lan.Tunnel.Specs.{AreSpecs, new_client-ok}
use oh_my_lan.Daemon.{Round, failed, reload, run, hash_specs}
use oh_my_lan.Daemon.Backoff.{IsBounded, run-waits}
use oh_my_lan.Daemon.Reload.{rebind, hash_specs-rebind}
use oh_my_lan.Examples.{failures}

abbrev pub failed_round : Round
failed_round = record { done_before = false; outcome = failed; done_waiting = false }

abbrev pub reload_round : Round
reload_round = record { done_before = false; outcome = reload; done_waiting = false }

run-waits_example :
    All IsBounded (run (failed_round ∷ failed_round ∷ reload_round ∷ failed_round ∷ [])).waits
run-waits_example = run-waits (failed_round ∷ failed_round ∷ reload_round ∷ failed_round ∷ [])

abbrev remote : Remote
remote = record {
  public_port = pos 40000;
  local_addr = "127.0.0.1:22";
  protocol = "tcp";
  bind_local = true;
}

hash_specs-rebind_example :
    hash_specs (λ s t. true) (λ s. s) (map (rebind false) (remote ∷ [])) []
    ≡ hash_specs (λ s t. true) (λ s. s) (remote ∷ []) []
hash_specs-rebind_example = hash_specs-rebind (λ s t. true) (λ s. s) false (remote ∷ []) []

allow_lem_example :
    ((allow "10.0.0.9" 60 (fail_times "10.0.0.9" failures [])).0
      ≡ ltb
          (length (select (recent 60) (failures_of "10.0.0.9" (fail_times "10.0.0.9" failures []))))
          max_fail)
    × (failures_of "10.0.0.7" (allow "10.0.0.9" 60 (fail_times "10.0.0.9" failures [])).1 ≡ (
        if "10.0.0.9" == "10.0.0.7"
        then select (recent 60) (failures_of "10.0.0.9" (fail_times "10.0.0.9" failures []))
        else failures_of "10.0.0.7" (fail_times "10.0.0.9" failures [])))
allow_lem_example = allow_lem "10.0.0.9" "10.0.0.7" 60 (fail_times "10.0.0.9" failures [])

new_client-ok_example :
    AreSpecs (remote ∷ []) [] ("R:127.0.0.1:40000:127.0.0.1:22" ∷ [])
    × ("http://vps:8443" == "" ≡ false)
    × ("d1" == "" ≡ false)
    × ("s1" == "" ≡ false)
unfolding new_client
new_client-ok_example =
    new_client-ok "http://vps:8443" "d1" "s1" (remote ∷ []) []
      ("R:127.0.0.1:40000:127.0.0.1:22" ∷ []) refl
