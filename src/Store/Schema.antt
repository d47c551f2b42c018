-- ===== src/Store/Schema.antt =====
-- The constraints of the migrations' schema as an invariant of the tables: keys and UNIQUE, the CHECK of
-- protocols, and foreign keys.
pub mod Inserts
pub mod Updates
pub mod Deletes
pub mod Logins
pub mod Logs
pub mod Operations
pub mod Consuming
pub mod Users
pub mod Commands
use oh_my_lan.Prelude.{
  ◌≡◌, true, false, ℕ, List, ◌==◌, String, Bool, Option, none, some, exists, All, NoClash,
}
use oh_my_lan.Store.{
  Device, Service, Forward, EnrollmentToken, AdminUser, Session, AdminToken, AuditEntry, Store,
}
use oh_my_lan.Store.Devices.{device_clash, device_is}
use oh_my_lan.Store.Services.{service_clash, is_protocol, service_is}
use oh_my_lan.Store.Forwards.{forward_clash}
use oh_my_lan.Store.Tokens.{token_clash}
use oh_my_lan.Store.Logins.{user_clash, user_is, session_clash, admin_token_clash}
use oh_my_lan.Store.Audits.{alert_is}

abbrev pub HasDevice : Store → String → Type 0
HasDevice s id = exists (device_is id) s.devices ≡ true

abbrev pub HasService : Store → String → Type 0
HasService s id = exists (service_is id) s.services ≡ true

abbrev pub UsedByDevice : Store → Option String → Type 0
UsedByDevice s none = Unit
UsedByDevice s (some id) = HasDevice s id

-- users, their sessions, and the tokens of administrators
pub record AreLogins (us : List AdminUser) (es : List Session) (ts : List AdminToken) : Type 0 where
  pub user_keys : NoClash user_clash us
  pub session_keys : NoClash session_clash es
  pub session_users : All (λ e. exists (user_is e.user_id) us ≡ true) es
  pub admin_token_keys : NoClash admin_token_clash ts

abbrev pub audit_clash : AuditEntry → AuditEntry → Bool
audit_clash e a = a.id == e.id

abbrev pub alert_clash : String × ℕ → String × ℕ → Bool
alert_clash a b = alert_is a.0 b

pub record IsWellFormed (s : Store) : Type 0 where
  pub device_keys : NoClash device_clash s.devices
  pub service_keys : NoClash service_clash s.services
  pub forward_keys : NoClash forward_clash s.forwards
  pub token_keys : NoClash token_clash s.tokens
  pub protocols : All (λ v. is_protocol v.protocol ≡ true) s.services
  pub service_devices : All (λ v. HasDevice s v.device_id) s.services
  pub forward_owners : All (λ f. HasDevice s f.owner_device_id) s.forwards
  pub forward_services : All (λ f. HasService s f.remote_service_id) s.forwards
  pub token_devices : All (λ t. UsedByDevice s t.used_by_device_id) s.tokens
  pub alert_devices : All (λ a. HasDevice s a.0) s.alerts
  pub alert_keys : NoClash alert_clash s.alerts
  pub audit_keys : NoClash audit_clash s.audit_log
  pub logins : AreLogins s.users s.sessions s.admin_tokens
