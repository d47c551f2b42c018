-- ===== src/Store/Schema/Operations.antt =====
-- The constraints under the operations of the store that requests and the periodic tasks call, but for
-- the consumption of a token (Consuming).
use oh_my_lan.Prelude.{
  ℕ, String, Bool, refl, ◌==◌, Option, inl, inr, not, ◌∷◌, exists, delete, Bool-cases,
}
use oh_my_lan.Exec.{Exec, ◌>>=◌, ◌>>◌, gets, refuse_if, modify}
use oh_my_lan.Exec.Keeps.{
  Keeps, Keeps-bind, Keeps-gets, Keeps-pure, Keeps-modify, Keeps-if, Keeps-raise, Keeps-refuse_if,
  keeps_rules,
}
use oh_my_lan.Store.{
  Service, Forward, EnrollmentToken, Session, AuditEntry, BarkSettings, Store, Error,
}
use oh_my_lan.Time.{whole_seconds}
use oh_my_lan.Store.Devices.{
  update_device_status, mark_stale_devices_offline, set_device_ssh, mark_device_ssh_locked,
  delete_device, device_is, is_stale, go_offline,
}
use oh_my_lan.Store.Services.{
  create_service, set_service_enabled, record_service_probe, delete_service, service_is, probed,
  service_enabled,
}
use oh_my_lan.Store.Forwards.{create_forward, set_forward_enabled, delete_forward}
use oh_my_lan.Store.Tokens.{create_enrollment_token}
use oh_my_lan.Store.Logins.{
  create_session, insert_session, session_clash, user_is, touch_session, delete_session_by_hash,
  delete_expired_sessions, session_hash_is, expired,
}
use oh_my_lan.Store.Audits.{
  write_audit, insert_audit, set_bark_settings, mark_device_alerted, clear_device_alert, alert_is,
}
use oh_my_lan.Store.Keeps.{Keeps-found}
use oh_my_lan.Store.Schema.{IsWellFormed}
use oh_my_lan.Store.Schema.Inserts.{
  statement-IsWellFormed, insert_service-IsWellFormed, insert_forward-IsWellFormed,
  insert_token-IsWellFormed,
}
use oh_my_lan.Store.Schema.Logins.{add_session, drop_sessions, use_sessions}
use oh_my_lan.Store.Schema.Logs.{add_audit, with_alert, without_alert}
use oh_my_lan.Store.Schema.Updates.{
  update_device-IsWellFormed, update_devices-IsWellFormed, update_service-IsWellFormed,
  update_services-IsWellFormed, SameService, enable_forward-IsWellFormed,
}
use oh_my_lan.Store.Schema.Deletes.{
  delete_device_row-IsWellFormed, delete_service_row-IsWellFormed, delete_forward_row-IsWellFormed,
}

ruleset row_rules = (
  keeps_rules, statement-IsWellFormed, Keeps-found, update_device-IsWellFormed,
  delete_device_row-IsWellFormed, insert_service-IsWellFormed, delete_service_row-IsWellFormed,
  insert_forward-IsWellFormed, enable_forward-IsWellFormed, delete_forward_row-IsWellFormed,
)

pub at_status :
    (id status : String) (now : ℕ) → Keeps IsWellFormed (update_device_status id status now)
unfolding update_device_status
at_status id status now = search row_rules

pub at_stale : (before : ℕ) → Keeps IsWellFormed (mark_stale_devices_offline before)
unfolding mark_stale_devices_offline
at_stale before = Keeps-bind _ _ statement-IsWellFormed λ _. Keeps-bind _ _ (Keeps-gets _) λ n.
    Keeps-bind _ _
      (Keeps-modify _
        (update_devices-IsWellFormed (is_stale before) go_offline (λ d. refl) (λ d. refl)))
      (λ _. Keeps-pure n)

pub at_ssh : (id key name : String) → Keeps IsWellFormed (set_device_ssh id key name)
unfolding set_device_ssh
at_ssh id key name = search row_rules

pub at_lock : (id : String) (now : ℕ) → Keeps IsWellFormed (mark_device_ssh_locked id now)
unfolding mark_device_ssh_locked
at_lock id now = search row_rules

pub at_delete_device : (id : String) → Keeps IsWellFormed (delete_device id)
unfolding delete_device
at_delete_device id = search row_rules

pub at_create_service : (v : Service) → Keeps IsWellFormed (create_service v)
unfolding create_service
at_create_service v = search row_rules

same_enabled : (b : Bool) → SameService (service_enabled b)
same_enabled b = record {
  id = λ v. refl;
  device_id = λ v. refl;
  name = λ v. refl;
  public_port = λ v. refl;
  protocol = λ v. refl;
}

pub at_enable_service : (id : String) (b : Bool) → Keeps IsWellFormed (set_service_enabled id b)
unfolding set_service_enabled
at_enable_service id b =
    Keeps-bind _ _ statement-IsWellFormed
      (λ _. update_service-IsWellFormed id (service_enabled b) (same_enabled b))

same_probed : (b : Bool) (now : ℕ) → SameService (probed b now)
same_probed b now = record {
  id = λ v. refl;
  device_id = λ v. refl;
  name = λ v. refl;
  public_port = λ v. refl;
  protocol = λ v. refl;
}

pub at_probe :
    (id : String) (b : Bool) (now : ℕ) → Keeps IsWellFormed (record_service_probe id b now)
unfolding record_service_probe
at_probe id b now = Keeps-bind _ _ statement-IsWellFormed (λ _.
    Keeps-modify _
      (update_services-IsWellFormed (service_is id) (probed b now) (same_probed b now)))

pub at_delete_service : (id : String) → Keeps IsWellFormed (delete_service id)
unfolding delete_service
at_delete_service id = search row_rules

pub at_create_forward : (f : Forward) → Keeps IsWellFormed (create_forward f)
unfolding create_forward
at_create_forward f = search row_rules

pub at_enable_forward : (id : String) (b : Bool) → Keeps IsWellFormed (set_forward_enabled id b)
unfolding set_forward_enabled
at_enable_forward id b = search row_rules

pub at_delete_forward : (id : String) → Keeps IsWellFormed (delete_forward id)
unfolding delete_forward
at_delete_forward id = search row_rules

pub at_create_token : (t : EnrollmentToken) → Keeps IsWellFormed (create_enrollment_token t)
unfolding create_enrollment_token
at_create_token t =
    Keeps-bind _ _ statement-IsWellFormed (λ _. insert_token-IsWellFormed _ (λ s. tt))

-- the settings, which no constraint reads
with_bark :
    (s : Store) (b : Option BarkSettings) → IsWellFormed s → IsWellFormed (record s { bark = b })
with_bark s b h = assumption

at_insert_session : (e : Session) → Keeps IsWellFormed (insert_session e)
unfolding insert_session
at_insert_session e = record {
  run = λ s h. elim (Bool-cases (exists (session_clash e) s.sessions)) [
    | inl clash ↦ rw clash h
    | inr fresh ↦ elim (Bool-cases (exists (user_is e.user_id) s.users)) [
      | inl user ↦ rw (fresh, user) (add_session e s fresh user h)
      | inr none_there ↦ rw (fresh, none_there) h
    ]
  ];
}

pub at_create_session : (e : Session) → Keeps IsWellFormed (create_session e)
unfolding create_session
at_create_session e = search (row_rules, at_insert_session)

pub at_touch_session : (id : String) (now : ℕ) → Keeps IsWellFormed (touch_session id now)
unfolding touch_session
at_touch_session id now =
    Keeps-bind _ _ statement-IsWellFormed (λ _. Keeps-modify _ (use_sessions (λ e. e.id == id) now))

pub at_delete_session : (hash : String) → Keeps IsWellFormed (delete_session_by_hash hash)
unfolding delete_session_by_hash
at_delete_session hash = Keeps-bind _ _ statement-IsWellFormed λ _.
    Keeps-bind _ _ (Keeps-gets _) λ there.
      Keeps-bind _ _ (Keeps-refuse_if _ _)
        (λ _. Keeps-modify _ (drop_sessions (session_hash_is hash)))

pub at_expired_sessions : (now : ℕ) → Keeps IsWellFormed (delete_expired_sessions now)
unfolding delete_expired_sessions
at_expired_sessions now = Keeps-bind _ _ statement-IsWellFormed λ _.
    Keeps-bind _ _ (Keeps-gets _)
      λ n. Keeps-bind _ _ (Keeps-modify _ (drop_sessions (expired now))) (λ _. Keeps-pure n)

at_insert_audit : (e : AuditEntry) → Keeps IsWellFormed (insert_audit e)
unfolding insert_audit
at_insert_audit e = record {
  run = λ s h. elim (Bool-cases (exists (λ a. a.id == e.id) s.audit_log)) [
    | inl clash ↦ rw clash h
    | inr fresh ↦ rw fresh (add_audit e s fresh h)
  ];
}

pub at_audit : (e : AuditEntry) → Keeps IsWellFormed (write_audit e)
unfolding write_audit
at_audit e =
    Keeps-if _ _ _ (Keeps-raise _) (Keeps-bind _ _ statement-IsWellFormed (λ _. at_insert_audit e))

pub at_bark : (b : BarkSettings) (now : ℕ) → Keeps IsWellFormed (set_bark_settings b now)
unfolding set_bark_settings
at_bark b now = Keeps-bind _ _ statement-IsWellFormed (λ _. Keeps-modify _ (λ s h. with_bark s _ h))

pub at_clear : (id : String) → Keeps IsWellFormed (clear_device_alert id)
unfolding clear_device_alert
at_clear id = Keeps-bind _ _ statement-IsWellFormed (λ _. Keeps-modify _ (without_alert id))

insert_alert : String → ℕ → Exec Store Error (Unit {0})
insert_alert id now = do
  there ← gets (λ s. exists (device_is id) s.devices)
  refuse_if (not there) Error.foreign_key
  modify (λ s. record s { alerts = (id, whole_seconds now) ∷ delete (alert_is id) s.alerts })

insert_alert-IsWellFormed : (id : String) (now : ℕ) → Keeps IsWellFormed (insert_alert id now)
unfolding insert_alert ◌>>=◌ gets refuse_if modify
insert_alert-IsWellFormed id now = record {
  run = λ s h. elim (Bool-cases (exists (device_is id) s.devices)) [
    | inl dev ↦ rw dev (with_alert id (whole_seconds now) s dev h)
    | inr none_there ↦ rw none_there h
  ];
}

pub at_alert : (id : String) (now : ℕ) → Keeps IsWellFormed (mark_device_alerted id now)
unfolding mark_device_alerted insert_alert
at_alert id now = Keeps-bind _ _ statement-IsWellFormed (λ _. insert_alert-IsWellFormed id now)
