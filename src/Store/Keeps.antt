-- ===== src/Store/Keeps.antt =====
-- What a client of the store needs to know of a property of its tables: the operations that write
-- keep it. Those that read then keep it too.
pub mod Used
use oh_my_lan.Prelude.{ℕ, String, Bool, Option, none, some, ℤ, List}
use oh_my_lan.Exec.{gets, ◌>>=◌, ◌>>◌}
use oh_my_lan.Exec.Keeps.{Keeps, Keeps-bind, Keeps-gets, keeps_rules}
use oh_my_lan.Store.{
  Device, Service, Forward, EnrollmentToken, Session, AuditEntry, BarkSettings, Store, statement,
  found,
}
use oh_my_lan.Store.Devices.{
  update_device_status, mark_stale_devices_offline, set_device_ssh, mark_device_ssh_locked,
  delete_device, get_device_by_id, list_devices, list_devices_with_counts, list_ssh_locked_before,
}
use oh_my_lan.Store.Services.{
  create_service, set_service_enabled, record_service_probe, delete_service, get_service,
  list_services_by_device, list_services_joined, used_public_ports,
}
use oh_my_lan.Store.Forwards.{
  create_forward, set_forward_enabled, delete_forward, get_forward, list_forwards_joined,
}
use oh_my_lan.Store.Tokens.{
  create_enrollment_token, consume_enrollment_token, get_enrollment_token_by_hash,
}
use oh_my_lan.Store.Logins.{
  create_session, touch_session, delete_session_by_hash, delete_expired_sessions,
  get_admin_user_by_username, get_admin_user_by_id, get_active_session_by_hash,
  get_admin_token_by_hash,
}
use oh_my_lan.Store.Audits.{
  write_audit, list_audit_recent, get_bark_settings, set_bark_settings, mark_device_alerted,
  clear_device_alert, is_device_alerted, load_counts,
}

pub record StoreKeeps (P : Store → Type 0) : Type 0 where
  pub at_faults : (s : Store) (l : List Bool) → P s → P (record s { faults = l })
  pub at_statement : Keeps P statement
  pub at_status : (id status : String) (now : ℕ) → Keeps P (update_device_status id status now)
  pub at_stale : (before : ℕ) → Keeps P (mark_stale_devices_offline before)
  pub at_ssh : (id key name : String) → Keeps P (set_device_ssh id key name)
  pub at_lock : (id : String) (now : ℕ) → Keeps P (mark_device_ssh_locked id now)
  pub at_delete_device : (id : String) → Keeps P (delete_device id)
  pub at_create_service : (v : Service) → Keeps P (create_service v)
  pub at_enable_service : (id : String) (b : Bool) → Keeps P (set_service_enabled id b)
  pub at_probe : (id : String) (b : Bool) (now : ℕ) → Keeps P (record_service_probe id b now)
  pub at_delete_service : (id : String) → Keeps P (delete_service id)
  pub at_create_forward : (f : Forward) → Keeps P (create_forward f)
  pub at_enable_forward : (id : String) (b : Bool) → Keeps P (set_forward_enabled id b)
  pub at_delete_forward : (id : String) → Keeps P (delete_forward id)
  pub at_create_token : (t : EnrollmentToken) → Keeps P (create_enrollment_token t)
  pub at_consume :
      (hash : String) (d : Device) (now : ℕ) → Keeps P (consume_enrollment_token hash d now)
  pub at_create_session : (e : Session) → Keeps P (create_session e)
  pub at_touch_session : (id : String) (now : ℕ) → Keeps P (touch_session id now)
  pub at_delete_session : (hash : String) → Keeps P (delete_session_by_hash hash)
  pub at_expired_sessions : (now : ℕ) → Keeps P (delete_expired_sessions now)
  pub at_audit : (e : AuditEntry) → Keeps P (write_audit e)
  pub at_bark : (b : BarkSettings) (now : ℕ) → Keeps P (set_bark_settings b now)
  pub at_alert : (id : String) (now : ℕ) → Keeps P (mark_device_alerted id now)
  pub at_clear : (id : String) → Keeps P (clear_device_alert id)

pub Keeps-found : {A : Type 0} {P : Store → Type 0} (o : Option A) → Keeps P (found o)
unfolding found
Keeps-found none = record { run = λ s h. h }
Keeps-found (some a) = record { run = λ s h. h }

module _ {P : Store → Type 0} (k : StoreKeeps P) where
  -- a SELECT of one row
  lookup : {A : Type 0} (f : Store → Option A) → Keeps P (do statement; row ← gets f; found row)
  lookup f = Keeps-bind _ _ k.at_statement (λ _. Keeps-bind _ _ (Keeps-gets f) (λ o. Keeps-found o))

  pub at_get_device : (id : String) → Keeps P (get_device_by_id id)
  unfolding get_device_by_id
  at_get_device id = lookup _

  pub at_list_devices : Keeps P list_devices
  unfolding list_devices
  at_list_devices = search (keeps_rules, k.at_statement)

  pub at_counted_devices : Keeps P list_devices_with_counts
  unfolding list_devices_with_counts
  at_counted_devices = search (keeps_rules, k.at_statement)

  pub at_locked_devices : (before : ℕ) → Keeps P (list_ssh_locked_before before)
  unfolding list_ssh_locked_before
  at_locked_devices before = search (keeps_rules, k.at_statement)

  pub at_get_service : (id : String) → Keeps P (get_service id)
  unfolding get_service
  at_get_service id = lookup _

  pub at_services : (id : String) → Keeps P (list_services_by_device id)
  unfolding list_services_by_device
  at_services id = search (keeps_rules, k.at_statement)

  pub at_joined_services : (id : String) → Keeps P (list_services_joined id)
  unfolding list_services_joined
  at_joined_services id = search (keeps_rules, k.at_statement)

  pub at_used_ports : Keeps P used_public_ports
  unfolding used_public_ports
  at_used_ports = search (keeps_rules, k.at_statement)

  pub at_get_forward : (id : String) → Keeps P (get_forward id)
  unfolding get_forward
  at_get_forward id = lookup _

  pub at_joined_forwards : (id : String) → Keeps P (list_forwards_joined id)
  unfolding list_forwards_joined
  at_joined_forwards id = search (keeps_rules, k.at_statement)

  pub at_get_token : (hash : String) → Keeps P (get_enrollment_token_by_hash hash)
  unfolding get_enrollment_token_by_hash
  at_get_token hash = lookup _

  pub at_user_by_name : (name : String) → Keeps P (get_admin_user_by_username name)
  unfolding get_admin_user_by_username
  at_user_by_name name = lookup _

  pub at_user_by_id : (id : String) → Keeps P (get_admin_user_by_id id)
  unfolding get_admin_user_by_id
  at_user_by_id id = lookup _

  pub at_session : (hash : String) (now : ℕ) → Keeps P (get_active_session_by_hash hash now)
  unfolding get_active_session_by_hash
  at_session hash now = lookup _

  pub at_admin_token : (hash : String) → Keeps P (get_admin_token_by_hash hash)
  unfolding get_admin_token_by_hash
  at_admin_token hash = lookup _

  pub at_audit_log : (limit : ℤ) → Keeps P (list_audit_recent limit)
  unfolding list_audit_recent
  at_audit_log limit = search (keeps_rules, k.at_statement)

  pub at_get_bark : Keeps P get_bark_settings
  unfolding get_bark_settings
  at_get_bark = search (keeps_rules, k.at_statement)

  pub at_alerted : (id : String) → Keeps P (is_device_alerted id)
  unfolding is_device_alerted
  at_alerted id = search (keeps_rules, k.at_statement)

  pub at_load_counts : Keeps P load_counts
  unfolding load_counts
  at_load_counts = search (keeps_rules, k.at_statement)
