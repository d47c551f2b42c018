-- ===== src/Store/Audits.antt =====
-- internal/store/audit.go, bark.go and metrics.go
use oh_my_lan.Prelude.{
  ℕ, String, Bool, false, not, Option, none, some, List, ◌∷◌, ◌==◌, ltb, nat_eq, ℤ, pos_part,
  exists, delete, count, sort_by, length, take, if◌then◌else◌,
}
use oh_my_lan.Exec.{ok, err, Exec, raise, gets, modify, refuse_if, ◌>>=◌, ◌>>◌}
use oh_my_lan.Time.{text_lt, whole_seconds}
use oh_my_lan.Store.{
  AuditEntry, BarkSettings, online, Store, Error, unique, foreign_key, no_id, statement,
}
use oh_my_lan.Store.Devices.{device_is}

-- audit.go

unfoldable pub insert_audit : AuditEntry → Exec Store Error (Unit {0})
insert_audit e s =
    if exists (λ a. a.id == e.id) s.audit_log
    then (err unique, s)
    else (ok tt, record s { audit_log = e ∷ s.audit_log })

unfoldable pub write_audit : AuditEntry → Exec Store Error (Unit {0})
unfolding insert_audit
write_audit e = if e.id == "" then raise no_id else (do statement; insert_audit e)

-- Not positive stands for 200, and 1000 is the most.
abbrev pub audit_limit : ℤ → ℕ
audit_limit limit =
    let n = pos_part limit in if nat_eq n 0 then 200 else if ltb 1000 n then 1000 else n

unfoldable pub list_audit_recent : ℤ → Exec Store Error (List AuditEntry)
list_audit_recent limit = do
  statement
  gets (λ s. take (audit_limit limit) (sort_by (λ a b. text_lt b.ts a.ts) s.audit_log))

-- bark.go

abbrev pub default_bark : BarkSettings
default_bark = record {
  enabled = false;
  bark_url = "";
  offline_threshold_seconds = 180;
  updated_at = 0;
}

abbrev pub bark_or_default : Option BarkSettings → BarkSettings
bark_or_default none = default_bark
bark_or_default (some b) = b

unfoldable pub get_bark_settings : Exec Store Error BarkSettings
get_bark_settings = do statement; gets (λ s. bark_or_default s.bark)

abbrev pub threshold_or_default : ℕ → ℕ
threshold_or_default n = if nat_eq n 0 then 180 else n

unfoldable pub set_bark_settings : BarkSettings → ℕ → Exec Store Error (Unit {0})
set_bark_settings b now = do
  statement
  modify (λ s. record s {
    bark = some (record b {
      offline_threshold_seconds = threshold_or_default b.offline_threshold_seconds;
      updated_at = whole_seconds now;
    });
  })

abbrev pub alert_is : String → String × ℕ → Bool
alert_is id a = a.0 == id

-- An upsert. `device_id` references devices.
unfoldable pub mark_device_alerted : String → ℕ → Exec Store Error (Unit {0})
mark_device_alerted id now = do
  statement
  there ← gets (λ s. exists (device_is id) s.devices)
  refuse_if (not there) foreign_key
  modify (λ s. record s { alerts = (id, whole_seconds now) ∷ delete (alert_is id) s.alerts })

unfoldable pub clear_device_alert : String → Exec Store Error (Unit {0})
clear_device_alert id = do
  statement
  modify (λ s. record s { alerts = delete (alert_is id) s.alerts })

unfoldable pub is_device_alerted : String → Exec Store Error Bool
is_device_alerted id = do statement; gets (λ s. exists (alert_is id) s.alerts)

-- metrics.go

pub record Counts : Type 0 where
  pub devices_total : ℕ
  pub devices_online : ℕ
  pub services_total : ℕ
  pub services_enabled : ℕ
  pub forwards_total : ℕ
  pub forwards_enabled : ℕ
  pub admin_tokens_total : ℕ

unfoldable pub load_counts : Exec Store Error Counts
load_counts = do
  statement
  gets (λ s. record {
    devices_total = length s.devices;
    devices_online = count (λ d. d.status == online) s.devices;
    services_total = length s.services;
    services_enabled = count (λ v. v.enabled) s.services;
    forwards_total = length s.forwards;
    forwards_enabled = count (λ f. f.enabled) s.forwards;
    admin_tokens_total = length s.admin_tokens;
  })
