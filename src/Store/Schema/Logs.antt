-- ===== src/Store/Schema/Logs.antt =====
-- The constraints under new entries of the audit log, and under alerts of devices.
use oh_my_lan.Prelude.{
  ℕ, ◌≡◌, refl, false, String, Bool, ◌==◌, arith, List, [], ◌∷◌, exists, delete, All-select,
  NoClash-select,
}
use oh_my_lan.Store.{AuditEntry, Store}
use oh_my_lan.Store.Audits.{alert_is}
use oh_my_lan.Store.Schema.{IsWellFormed, HasDevice, alert_clash}

pub add_audit :
    (e : AuditEntry) (s : Store)
    → exists (λ a. a.id == e.id) s.audit_log ≡ false
    → IsWellFormed s
    → IsWellFormed (record s { audit_log = e ∷ s.audit_log })
add_audit e s fresh h = record {
  device_keys = h.device_keys;
  service_keys = h.service_keys;
  forward_keys = h.forward_keys;
  token_keys = h.token_keys;
  protocols = h.protocols;
  service_devices = h.service_devices;
  forward_owners = h.forward_owners;
  forward_services = h.forward_services;
  token_devices = h.token_devices;
  alert_devices = h.alert_devices;
  alert_keys = h.alert_keys;
  audit_keys = (fresh, h.audit_keys);
  logins = h.logins;
}

exists-delete_self : (p : String × ℕ → Bool) (l : List (String × ℕ)) → exists p (delete p l) ≡ false
exists-delete_self p [] = refl
exists-delete_self p (a ∷ l) = ground (arith, exists-delete_self p l)

-- An alert of a device of the table, and one less.
pub without_alert :
    (id : String) (s : Store)
    → IsWellFormed s
    → IsWellFormed (record s { alerts = delete (alert_is id) s.alerts })
without_alert id s h = record {
  device_keys = h.device_keys;
  service_keys = h.service_keys;
  forward_keys = h.forward_keys;
  token_keys = h.token_keys;
  protocols = h.protocols;
  service_devices = h.service_devices;
  forward_owners = h.forward_owners;
  forward_services = h.forward_services;
  token_devices = h.token_devices;
  alert_devices = All-select _ _ s.alerts h.alert_devices;
  alert_keys = NoClash-select alert_clash _ s.alerts h.alert_keys;
  audit_keys = h.audit_keys;
  logins = h.logins;
}

pub with_alert :
    (id : String) (t : ℕ) (s : Store)
    → HasDevice s id
    → IsWellFormed s
    → IsWellFormed (record s { alerts = (id, t) ∷ delete (alert_is id) s.alerts })
with_alert id t s dev h = record {
  device_keys = h.device_keys;
  service_keys = h.service_keys;
  forward_keys = h.forward_keys;
  token_keys = h.token_keys;
  protocols = h.protocols;
  service_devices = h.service_devices;
  forward_owners = h.forward_owners;
  forward_services = h.forward_services;
  token_devices = h.token_devices;
  alert_devices = (dev, All-select _ _ s.alerts h.alert_devices);
  alert_keys = (
    exists-delete_self (alert_is id) s.alerts,
    NoClash-select alert_clash _ s.alerts h.alert_keys,
  );
  audit_keys = h.audit_keys;
  logins = h.logins;
}
