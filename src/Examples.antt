-- ===== src/Examples.antt =====
-- Concrete runs: the theorems at concrete inputs, and tests of definitions.
mod Files
mod Daemon
mod Machine
mod Requests
mod Texts
use Prim.Native.String
use oh_my_lan.Prelude.{
  ℕ, ◌+◌, ◌*◌, ◌-◌, ◌≤◌, ◌<◌, ◌≡◌, ◌≢◌, refl, not, ◌&&◌, String, true, false, none, some, List, [],
  ◌∷◌, ◌++◌, map, ◌==◌, arith, pos, drop, min, All, nat_eq, exists, inl, inr, ltb, length, select,
  if◌then◌else◌,
}
use oh_my_lan.Exec.{ok, raise}
use oh_my_lan.Time.{second, text_lt}
use oh_my_lan.Time.Order.{text_lt_whole}
use oh_my_lan.Logging.RingBuffer.{
  LogEntry, new_ring_buffer, add_all, snapshot, clamp_limit, capacity,
}
use oh_my_lan.Logging.RingBuffer.History.{snapshot-add_all}
use oh_my_lan.Api.Ports.{search_port, taken, search_port_lem}
use oh_my_lan.Api.RateLimit.{
  allow, fail_times, recent, max_fail, failures_of, allow_lem, allow-fail_times,
}
use oh_my_lan.Store.{Store, Device, Service, offline}
use oh_my_lan.Store.Services.{ServiceListItem}
use oh_my_lan.Store.Schema.{IsWellFormed}
use oh_my_lan.Server.{Server, Env}
use oh_my_lan.Enroll.{EnrolledDevice, enroll_device}
use oh_my_lan.Device.Publish.{discovered, to_brief}
use oh_my_lan.Device.Consume.{remotes_of, locals_of}
use oh_my_lan.Tunnel.{Remote, new_client}
use oh_my_lan.Tunnel.Specs.{AreSpecs, new_client-ok}
use oh_my_lan.Daemon.{Round, failed, reload, unauthorized, run, device_revoked, hash_specs}
use oh_my_lan.Daemon.Backoff.{IsBounded, run-waits}
use oh_my_lan.Daemon.Reload.{rebind, hash_specs-rebind}
use oh_my_lan.Router.{
  Outside, Event, request, offline_tick, restart, meanwhile, from_device, open_other_method,
  handle_request, happen, DeviceRoute, live,
}
use oh_my_lan.Router.Invariant.{live-IsWellFormed}
use oh_my_lan.Router.SingleUse.{live-enroll_device}

abbrev pub entry : String → LogEntry
entry m = record { time = 1; level = "INFO"; message = m; attrs = "" }

snapshot-add_all_example :
    snapshot
      (pos 2)
      (add_all (entry "a" ∷ entry "b" ∷ entry "c" ∷ entry "d" ∷ []) (new_ring_buffer (pos 3)))
    ≡ drop
        (4 - clamp_limit (pos 2) (min (capacity (pos 3)) 4))
        (entry "a" ∷ entry "b" ∷ entry "c" ∷ entry "d" ∷ [])
snapshot-add_all_example =
    snapshot-add_all (pos 3) (pos 2) (entry "a" ∷ entry "b" ∷ entry "c" ∷ entry "d" ∷ [])

search_port_example :
    ((port : ℕ)
      → search_port (40000 ∷ 40001 ∷ []) 40000 (40003 + 1 - 40000) ≡ some port
      → (40000 ≤ port)
        × (port ≤ 40003)
        × (taken port (40000 ∷ 40001 ∷ []) ≡ false)
        × ((q : ℕ) → 40000 ≤ q → q < port → taken q (40000 ∷ 40001 ∷ []) ≡ true))
    × (search_port (40000 ∷ 40001 ∷ []) 40000 (40003 + 1 - 40000) ≡ none
        → (q : ℕ) → 40000 ≤ q
        → q ≤ 40003
        → taken q (40000 ∷ 40001 ∷ []) ≡ true)
search_port_example = search_port_lem (40000 ∷ 40001 ∷ []) 40000 40003

abbrev pub failures : List ℕ
failures = 1 ∷ 2 ∷ 3 ∷ 4 ∷ 5 ∷ []

allow-fail_times_example : (allow "10.0.0.9" 60 (fail_times "10.0.0.9" failures [])).0 ≡ false
allow-fail_times_example =
    allow-fail_times "10.0.0.9" failures 60 [] (omega arith)
      (refl, (refl, (refl, (refl, (refl, tt)))))

text_lt_whole_example :
    (text_lt (7 * second + 5) (7 * second) ≡ true) × (text_lt (7 * second) (7 * second + 5) ≡ false)
text_lt_whole_example = text_lt_whole 7 5 (omega arith) (omega arith)

-- a server with one device, which publishes one service

abbrev pub laptop : Device
laptop = record {
  id = "d1";
  name = "laptop";
  tunnel_secret = "s1";
  status = offline;
  created_at = 1;
  last_seen_at = none;
  ssh_pubkey = "";
  ssh_username = "";
  ssh_locked_at = none;
}

abbrev pub ssh : Service
ssh = record {
  id = "v1";
  device_id = "d1";
  name = "ssh";
  protocol = "tcp";
  local_addr = "127.0.0.1:22";
  public_port = 40000;
  enabled = true;
  bind_local = true;
  created_at = 2;
  last_probe_at = none;
  last_probe_ok = false;
}

abbrev pub tables : Store
tables = record {
  devices = laptop ∷ [];
  services = ssh ∷ [];
  forwards = [];
  tokens = [];
  users = [];
  sessions = [];
  admin_tokens = [];
  audit_log = [];
  alerts = [];
  bark = none;
  faults = [];
}

abbrev pub host : Env
host = record {
  hash = λ s. Prim.Native.String.◌++◌ "#" s;
  passwords_match = λ p h. p == h;
  port_min = 40000;
  port_max = 40003;
  ssh_accounts = false;
  ssh_host = "vps";
  ssh_port = 22;
  fingerprint = "f";
  chisel_addr = "vps:8443";
}

abbrev pub server : Server
server = record {
  env = host;
  store = tables;
  mirror = "d1" ∷ [];
  failures = [];
  now = 100 * second;
  entropy = "x1" ∷ "x2" ∷ [];
  outcomes = [];
}

abbrev pub world : Outside
world = record { parse_url = λ s. some ("https", s); started = 0; dial = λ p. true }

abbrev events : List Event
events =
    request (from_device "Bearer d1.s1" DeviceRoute.bootstrap)
    ∷ meanwhile (200 * second) [] (true ∷ []) []
    ∷ offline_tick
    ∷ restart
    ∷ []

pub tables-IsWellFormed : IsWellFormed tables
tables-IsWellFormed = record {
  device_keys = (refl, tt);
  service_keys = (refl, tt);
  forward_keys = tt;
  token_keys = tt;
  protocols = (refl, tt);
  service_devices = (refl, tt);
  forward_owners = tt;
  forward_services = tt;
  token_devices = tt;
  alert_devices = tt;
  alert_keys = tt;
  audit_keys = tt;
  logins = record { user_keys = tt; session_keys = tt; session_users = tt; admin_token_keys = tt };
}

live-IsWellFormed_example : IsWellFormed (live world events server).store
live-IsWellFormed_example = live-IsWellFormed world events server tables-IsWellFormed

-- the tables with a used token, whose text is `ot_abc`
abbrev used_tables : Store
used_tables = record tables {
  tokens =
      record {
        id = "t1";
        token_hash = "#ot_abc";
        expires_at = 300 * second;
        used_at = some 5;
        used_by_device_id = some "d1";
        created_at = 3;
      }
      ∷ [];
}

abbrev used_server : Server
used_server = record server { store = used_tables }

abbrev later : List Event
later = meanwhile (200 * second) [] [] [] ∷ request open_other_method ∷ []

abbrev phone : EnrolledDevice
phone = record { device_id = "x1"; device_name = "phone"; tunnel_secret = "x2" }

live-enroll_device_example :
    (enroll_device "ot_abc" "phone" (live world later used_server)).0 ≢ ok phone
unfolding live happen handle_request raise
live-enroll_device_example =
    live-enroll_device world later used_server "ot_abc" "phone" "#ot_abc"
      (record { used = ((λ _. refl), tt); there = refl }) refl phone
