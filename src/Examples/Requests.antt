-- ===== src/Examples/Requests.antt =====
-- An enrollment, and a device that asks for what another one owns.
use oh_my_lan.Prelude.{
  ◌+◌, ◌*◌, ◌<◌, ◌≡◌, refl, exists, count, List, ◌==◌, nat_eq, true, ◌&&◌, none, some, [], ◌∷◌,
  arith,
}
use oh_my_lan.Exec.Undoes.{Undoes}
use oh_my_lan.Exec.Triple.{Triple}
use oh_my_lan.Text.{cut}
use oh_my_lan.Store.{Device}
use oh_my_lan.Store.Reads.{SameStore}
use oh_my_lan.Http.{Method, ServiceBrief, BootstrapResponse, respond, briefs_dto, bootstrap_dto}
use oh_my_lan.Enroll.{enroll_device}
use oh_my_lan.Enroll.Conditions.{Before, is_open, enroll_device-is_open}
use oh_my_lan.Store.{EnrollmentToken}
use oh_my_lan.Store.Tokens.{hash_is}
use oh_my_lan.Enroll.Failure.{enroll_device-Undoes}
use oh_my_lan.Enroll.Success.{HasRow, HasUsed, row_of, enroll_device-rows}
use oh_my_lan.Device.Publish.{handle_service_item, handle_discover}
use oh_my_lan.Device.Consume.{handle_forward_item, handle_bootstrap}
use oh_my_lan.Device.Rows.{is_remote, is_local, is_discovered}
use oh_my_lan.Device.Listing.{handle_discover-is_discovered, handle_bootstrap-is_remote}
use oh_my_lan.Device.Isolation.{
  IsRefused, handle_service_item-IsRefused, handle_forward_item-IsRefused,
}
use oh_my_lan.Exec.{ok, gets, ◌>>=◌}
use oh_my_lan.Exec.Establishes.{Establishes}
use oh_my_lan.Time.{second}
use oh_my_lan.Time.Order.{text_lt_of_second-le}
use oh_my_lan.Store.{Session, statement}
use oh_my_lan.Exec.Keeps.{Keeps}
use oh_my_lan.Store.{AdminUser, AdminToken}
use oh_my_lan.Store.Logins.{get_active_session_by_hash}
use oh_my_lan.Store.Expiry.{get_active_session_by_hash-near}
use oh_my_lan.Server.Keeps.{InStore}
use oh_my_lan.Command.Server.{run_admin_user_set}
use oh_my_lan.Command.Server.Users.{HasPassword, run_admin_user_set-HasPassword}
use oh_my_lan.Examples.{laptop, server, tables, tables-IsWellFormed}

enroll_device-Undoes_example : Undoes SameStore (enroll_device "ot_abc" "phone")
enroll_device-Undoes_example = enroll_device-Undoes "ot_abc" "phone"

enroll_device-rows_example :
    Triple
      (λ w. w.env.hash "ot_abc" ≡ "#ot_abc")
      (enroll_device "ot_abc" "phone")
      (λ d w. (d.device_name ≡ "phone") × HasRow (row_of d) w.store × HasUsed "#ot_abc" w.store)
enroll_device-rows_example = enroll_device-rows "ot_abc" "phone" "#ot_abc"

abbrev open_token : EnrollmentToken
open_token = record {
  id = "t2";
  token_hash = "#ot_abc";
  expires_at = 300;
  used_at = none;
  used_by_device_id = none;
  created_at = 3;
}

enroll_device-is_open_example :
    Triple
      (Before "ot_abc" "#ot_abc" 100 (open_token ∷ []))
      (enroll_device "ot_abc" "phone")
      (λ _ _. exists (λ t. hash_is "#ot_abc" t && is_open 100 t) (open_token ∷ []) ≡ true)
enroll_device-is_open_example =
    enroll_device-is_open "ot_abc" "phone" "#ot_abc" 100 (open_token ∷ [])

abbrev phone : Device
phone = record laptop { id = "d2"; name = "phone" }

handle_service_item-IsRefused_example :
    IsRefused server (handle_service_item phone Method.delete "v1" server)
unfolding cut
handle_service_item-IsRefused_example =
    handle_service_item-IsRefused phone Method.delete "v1" server refl

handle_forward_item-IsRefused_example :
    IsRefused server (handle_forward_item phone Method.post "f1/enable" server)
unfolding cut
handle_forward_item-IsRefused_example =
    handle_forward_item-IsRefused phone Method.post "f1/enable" server refl

handle_discover-is_discovered_example :
    (bs : List ServiceBrief) × ((handle_discover phone server).0 ≡ ok (respond 200 (briefs_dto bs)))
    × (count (λ b. b.name == "ssh") bs
        ≡ count (is_discovered "d2" tables.devices (λ b. b.name == "ssh")) tables.services)
handle_discover-is_discovered_example =
    handle_discover-is_discovered phone server (λ b. b.name == "ssh") refl tables-IsWellFormed

handle_bootstrap-is_remote_example :
    (b : BootstrapResponse) × ((handle_bootstrap laptop server).0
      ≡ ok (respond 200 (bootstrap_dto b)))
    × (count (λ e. nat_eq e.public_port 40000) b.remotes
        ≡ count (is_remote "d1" (λ e. nat_eq e.public_port 40000)) tables.services)
    × (count (λ e. true) b.locals
        ≡ count (is_local "d1" tables.services (λ e. true)) tables.forwards)
handle_bootstrap-is_remote_example =
    handle_bootstrap-is_remote laptop server (λ e. nat_eq e.public_port 40000) (λ e. true) refl refl

abbrev open_session : Session
open_session = record {
  id = "s1";
  token_hash = "#sess_a";
  user_id = "u1";
  expires_at = 200 * second;
  created_at = 1;
  last_used_at = none;
}

get_active_session_by_hash-near_example :
    (open_session.token_hash ≡ "#sess_a") × (100 * second < open_session.expires_at + second)
unfolding get_active_session_by_hash statement gets ◌>>=◌
get_active_session_by_hash-near_example =
    get_active_session_by_hash-near "#sess_a" (100 * second)
      (record tables { sessions = open_session ∷ [] }) open_session
      (rw (text_lt_of_second-le (100 * second) (200 * second) (omega arith)) refl)

run_admin_user_set-HasPassword_example :
    Establishes
      (run_admin_user_set "root" (some "$argon2id$"))
      (InStore (HasPassword "root" "$argon2id$"))
run_admin_user_set-HasPassword_example = run_admin_user_set-HasPassword "root" "$argon2id$"

abbrev owner : AdminUser
owner = record {
  id = "u1";
  username = "owner";
  password_hash = "h";
  created_at = 1;
  updated_at = 1;
}

abbrev cli_token : AdminToken
cli_token = record {
  id = "a1";
  token_hash = "#adm_a";
  label = "cli";
  created_at = 1;
  last_used_at = none;
}
