-- ===== src/Examples/Machine.antt =====
-- A machine on which commands run, a database on which migrations run, and a device that is revoked.
use oh_my_lan.Prelude.{
  ℕ, ◌+◌, ◌*◌, ◌≤◌, ◌≡◌, refl, String, Bool, true, false, Option, none, some, List, [], ◌∷◌, arith,
  length, sort_by, pos, ◌++◌, inl, inr,
}
use oh_my_lan.Exec.{ok, on_error, attempt, ◌>>=◌}
use oh_my_lan.Api.Address.{validate_pubkey}
use oh_my_lan.Device.Enrollment.{username_for}
use oh_my_lan.Exec.Establishes.{Establishes}
use oh_my_lan.Time.{second}
use oh_my_lan.Files.{content, missing}
use oh_my_lan.Api.Ports.{search_port, taken}
use oh_my_lan.Config.{default_server_config, load_server}
use oh_my_lan.Config.Bounds.{load_server-search_port}
use oh_my_lan.Client.{ApiClient, bearer}
use oh_my_lan.Client.Bearer.{credentials-bearer}
use oh_my_lan.Text.{contains_char}
use oh_my_lan.Auth.{credentials}
use oh_my_lan.Accounts.{
  System, valid_name, not_started, try_again, run, provision, auth_path, authorized_keys_line,
}
use oh_my_lan.Accounts.Retry.{run-tries}
use oh_my_lan.Accounts.Line.{IsLine}
use oh_my_lan.Accounts.Provision.{KeepsFiles, provision-ok}
use oh_my_lan.Migrations.{Migration, DirEntry, Database, migrate, load_migrations}
use oh_my_lan.Migrations.Versions.{fresh}
use oh_my_lan.Migrations.Progress.{Ended, migrate-Ended}
use oh_my_lan.Migrations.Success.{migrate-ok}
use oh_my_lan.Store.{statement}
use oh_my_lan.Store.Devices.{delete_device, mark_device_ssh_locked}
use oh_my_lan.Server.{on_store, remove_device, audit}
use oh_my_lan.Server.Keeps.{InStore}
use oh_my_lan.Admin.Devices.{revoke}
use oh_my_lan.Admin.Unknown.{IsUnknown, revoke-IsUnknown}
use oh_my_lan.Admin.Revoke.{IsGone, revoke-IsGone}
use oh_my_lan.Http.{BootstrapResponse, respond, no_body}
use oh_my_lan.Router.{happen, meanwhile}
use oh_my_lan.Daemon.{Round, device_revoked}
use oh_my_lan.Daemon.Once.{tunnel_closed}
use oh_my_lan.Daemon.Revoked.{round_at, run-revoke}
use oh_my_lan.Examples.{server, world}
use oh_my_lan.Examples.Daemon.{failed_round}
use oh_my_lan.Examples.Files.{memory, memory-IsLawful, laptop_state}

-- commands that run well and change no file
abbrev machine : System
machine = record {
  files = memory;
  exec = λ name args s. (record { output = ""; error = none }, s);
  wait = λ s. (false, s);
  passwd = λ s. content "root:x:0:0::/root:/bin/sh\n";
}

machine-KeepsFiles : KeepsFiles machine
machine-KeepsFiles = record {
  files = memory-IsLawful;
  read-chown = λ p args s. refl;
  read-wait = λ p s. refl;
}

abbrev key : String
key = "ssh-ed25519 AAAAC3NzaC1lZDI1NTE5AAAAIAAAAAAAAAAAAAAAAAAAA laptop"

provision-ok_example :
    (memory.read
        (auth_path "/home" "oml-0123abcd")
        (provision machine "/home" "0123abcd" key [] []).1
      ≡ content (Prim.Native.String.◌++◌ (authorized_keys_line key []) "\n"))
    × IsLine (authorized_keys_line key [])
unfolding provision validate_pubkey valid_name username_for on_error attempt ◌>>=◌
provision-ok_example =
    provision-ok machine machine-KeepsFiles "/home" "0123abcd" key "oml-0123abcd" [] [] refl

-- commands that find the user database locked, each of which leaves a file
abbrev busy : System
busy = record {
  files = memory;
  exec = λ name args s. (
    record {
      output = "useradd: cannot lock /etc/passwd; try again later.";
      error = some not_started;
    },
    (name, "") ∷ s,
  );
  wait = λ s. (false, s);
  passwd = λ s. missing;
}

abbrev tries : List (String × String) → ℕ
tries s = length s

run-tries_example :
    (tries (run busy "useradd" [] []).1 ≤ 0 + 5)
    × (try_again (busy.exec "useradd" [] []).0 ≡ false
        → run busy "useradd" [] [] ≡ busy.exec "useradd" [] [])
run-tries_example = run-tries busy tries "useradd" [] [] (λ s. omega arith) (λ s. omega arith)

abbrev entries : List DirEntry
entries =
    record { name = "0002_b.sql"; is_dir = false; content = some "B" }
    ∷ record { name = "0001_a.sql"; is_dir = false; content = some "A" }
    ∷ []

abbrev migrations : List Migration
migrations =
    record { version = pos 1; name = "a"; sql = "A" }
    ∷ record { version = pos 2; name = "b"; sql = "B" }
    ∷ []

abbrev database : List Bool → Database (List String)
database faults = record { tables = []; applied = []; faults = faults }

abbrev log_script : String → List String → Option (List String)
log_script sql t = some (sql ∷ t)

migrate-Ended_example :
    Ended log_script migrations []
      (migrate log_script entries (database (false ∷ false ∷ true ∷ [])))
unfolding load_migrations sort_by
migrate-Ended_example =
    migrate-Ended log_script migrations [] entries (database (false ∷ false ∷ true ∷ [])) refl
      (migrations, fresh)

migrate-ok_example : (migrate log_script entries (database [])).0 ≡ ok tt
unfolding load_migrations sort_by
migrate-ok_example =
    migrate-ok log_script migrations [] entries (database []) (λ sql t. (sql ∷ t, refl)) refl refl
      (migrations, fresh)

load_server-search_port_example :
    (1 ≤ 40001)
    × (40001 ≤ 65535)
    × (40000 ≤ 40001)
    × (40001 ≤ 49999)
    × (taken 40001 (40000 ∷ []) ≡ false)
unfolding load_server search_port
load_server-search_port_example =
    load_server-search_port (λ c t. none) (λ p. missing) "" default_server_config 40000 49999 40001
      (40000 ∷ []) refl refl refl refl

abbrev laptop_client : ApiClient
laptop_client = record { base_url = "http://vps:8080"; device_id = "d1"; secret = "s1" }

credentials-bearer_example : credentials (bearer laptop_client) ≡ some ("d1", "s1")
unfolding contains_char
credentials-bearer_example = credentials-bearer laptop_client refl refl

revoke-IsGone_example : Establishes (revoke "user:admin" "d1") (InStore (IsGone "d1"))
revoke-IsGone_example = revoke-IsGone "user:admin" "d1"

revoke-IsUnknown_example : Establishes (revoke "user:admin" "d1") (IsUnknown "d1")
revoke-IsUnknown_example = revoke-IsUnknown "user:admin" "d1"

abbrev no_bootstrap : BootstrapResponse
no_bootstrap = record { server_fingerprint = ""; chisel_addr = ""; remotes = []; locals = [] }

abbrev next_round : Round
next_round =
    round_at world (λ r. "") (λ req w. (none, w)) (λ s. "") (λ t. none) no_bootstrap laptop_state
      (happen world (meanwhile (200 * second) [] [] []) (revoke "user:admin" "d1" server).1) false
      tunnel_closed false

run-revoke_example :
    (oh_my_lan.Daemon.run ((failed_round ∷ []) ++ next_round ∷ [])).exit ≡ some device_revoked
unfolding revoke contains_char ◌>>=◌ attempt on_error on_store delete_device statement
    mark_device_ssh_locked remove_device audit
run-revoke_example =
    run-revoke world (λ r. "") (λ req w. (none, w)) (λ s. "") (λ t. none) no_bootstrap laptop_state
      "user:admin" server (respond 204 no_body) (200 * second) [] [] [] false false tunnel_closed
      (failed_round ∷ []) [] refl refl refl
      (record { before = refl; waiting = refl; outcome = inr (inl refl) }, tt)
