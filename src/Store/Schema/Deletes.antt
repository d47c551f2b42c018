-- ===== src/Store/Schema/Deletes.antt =====
-- The constraints under the deletion of devices, services and forwards, with its cascades.
use oh_my_lan.Prelude.{
  ◌≡◌, refl, ◌∙◌, true, false, String, Bool, not, ◌&&◌, ◌||◌, Option, none, some, List, ◌==◌,
  eq_iff, arith, exists, delete, All-select, All-select_imp, All-update_imp, NoClash-select,
  NoClash-update, exists-select, exists-imp, exists-delete,
}
use oh_my_lan.Exec.Keeps.{Keeps, branch}
use oh_my_lan.Store.{Device, Forward, Store}
use oh_my_lan.Store.Devices.{
  device_clash, device_is, service_of, used_by, forget_device, cascade_device, delete_device_row,
}
use oh_my_lan.Store.Services.{service_clash, service_is, cascade_service, delete_service_row}
use oh_my_lan.Store.Forwards.{forward_clash, forward_is, delete_forward_row}
use oh_my_lan.Store.Tokens.{token_clash}
use oh_my_lan.Store.Schema.{IsWellFormed, UsedByDevice, alert_clash}

pub not-true : (b : Bool) → not b ≡ true → b ≡ false
not-true b h = ground arith

-- a device of another id is left
other_device :
    (ds : List Device) (id other : String)
    → other == id ≡ false
    → exists (device_is other) ds ≡ true
    → exists (device_is other) (delete (device_is id) ds) ≡ true
other_device ds id other ne h =
    exists-select (device_is other) (λ d. not (device_is id d)) ds
    ∙ exists-imp (device_is other) (λ d. not (device_is id d) && device_is other d) ds
        (λ d e. ground (arith, eq_iff d.id id, eq_iff d.id other, eq_iff other id)) h

left_of_or : (a b : Bool) → not (a || b) ≡ true → a ≡ false
left_of_or a b h = ground arith

right_of_or : (a b : Bool) → not (a || b) ≡ true → b ≡ false
right_of_or a b h = ground arith

cascade_device-IsWellFormed :
    (id : String) (s : Store) → IsWellFormed s → IsWellFormed (cascade_device id s)
unfolding cascade_device
cascade_device-IsWellFormed id s h = record {
  device_keys = NoClash-select device_clash _ s.devices h.device_keys;
  service_keys = NoClash-select service_clash _ s.services h.service_keys;
  forward_keys = NoClash-select forward_clash _ s.forwards h.forward_keys;
  token_keys =
      NoClash-update token_clash _ forget_device s.tokens (λ t u. refl) (λ t u. refl) h.token_keys;
  protocols = All-select _ _ s.services h.protocols;
  service_devices =
      All-select_imp _ _ _ s.services
        (λ v kept. other_device s.devices id v.device_id (not-true _ kept)) h.service_devices;
  forward_owners =
      All-select_imp _ _ _ s.forwards
        (λ f kept. other_device s.devices id f.owner_device_id (left_of_or _ _ kept))
        h.forward_owners;
  forward_services =
      All-select_imp _ _ _ s.forwards
        (λ f kept e.
          exists-delete (service_is f.remote_service_id) (service_of id) s.services e
            (right_of_or _ _ kept))
        h.forward_services;
  token_devices =
      All-update_imp (λ t. UsedByDevice s t.used_by_device_id)
        (λ t. UsedByDevice (cascade_device id s) t.used_by_device_id) _ forget_device s.tokens
        (λ t _. tt) (λ t kept. still_used t.used_by_device_id kept) h.token_devices;
  alert_devices =
      All-select_imp _ _ _ s.alerts (λ a kept. other_device s.devices id a.0 (not-true _ kept))
        h.alert_devices;
  alert_keys = NoClash-select alert_clash _ s.alerts h.alert_keys;
  audit_keys = h.audit_keys;
  logins = h.logins;
}
  where
    still_used :
        (o : Option String)
        → used_by id o ≡ false
        → UsedByDevice s o
        → UsedByDevice (cascade_device id s) o
    still_used none kept u = tt
    still_used (some d) kept u = other_device s.devices id d kept u

pub delete_device_row-IsWellFormed : (id : String) → Keeps IsWellFormed (delete_device_row id)
unfolding delete_device_row
delete_device_row-IsWellFormed id = record {
  run = λ s h. branch IsWellFormed _ _ _ (λ _. cascade_device-IsWellFormed id s h) (λ _. h);
}

cascade_service-IsWellFormed :
    (id : String) (s : Store) → IsWellFormed s → IsWellFormed (cascade_service id s)
unfolding cascade_service
cascade_service-IsWellFormed id s h = record {
  device_keys = h.device_keys;
  service_keys = NoClash-select service_clash _ s.services h.service_keys;
  forward_keys = NoClash-select forward_clash _ s.forwards h.forward_keys;
  token_keys = h.token_keys;
  protocols = All-select _ _ s.services h.protocols;
  service_devices = All-select _ _ s.services h.service_devices;
  forward_owners = All-select _ _ s.forwards h.forward_owners;
  forward_services =
      All-select_imp _ _ _ s.forwards
        (λ f kept e.
          exists-select (service_is f.remote_service_id) (λ v. not (service_is id v)) s.services
          ∙ exists-imp (service_is f.remote_service_id)
              (λ v. not (service_is id v) && service_is f.remote_service_id v) s.services
              (λ v there. ground (
                arith,
                not-true _ kept,
                eq_iff v.id id,
                eq_iff v.id f.remote_service_id,
                eq_iff f.remote_service_id id,
              ))
              e)
        h.forward_services;
  token_devices = h.token_devices;
  alert_devices = h.alert_devices;
  alert_keys = h.alert_keys;
  audit_keys = h.audit_keys;
  logins = h.logins;
}

pub delete_service_row-IsWellFormed : (id : String) → Keeps IsWellFormed (delete_service_row id)
unfolding delete_service_row
delete_service_row-IsWellFormed id = record {
  run = λ s h. branch IsWellFormed _ _ _ (λ _. cascade_service-IsWellFormed id s h) (λ _. h);
}

drop_forwards :
    (p : Forward → Bool) (s : Store)
    → IsWellFormed s
    → IsWellFormed (record s { forwards = delete p s.forwards })
drop_forwards p s h = record {
  device_keys = h.device_keys;
  service_keys = h.service_keys;
  forward_keys = NoClash-select forward_clash _ s.forwards h.forward_keys;
  token_keys = h.token_keys;
  protocols = h.protocols;
  service_devices = h.service_devices;
  forward_owners = All-select _ _ s.forwards h.forward_owners;
  forward_services = All-select _ _ s.forwards h.forward_services;
  token_devices = h.token_devices;
  alert_devices = h.alert_devices;
  alert_keys = h.alert_keys;
  audit_keys = h.audit_keys;
  logins = h.logins;
}

pub delete_forward_row-IsWellFormed : (id : String) → Keeps IsWellFormed (delete_forward_row id)
unfolding delete_forward_row
delete_forward_row-IsWellFormed id = record {
  run = λ s h. branch IsWellFormed _ _ _ (λ _. drop_forwards (forward_is id) s h) (λ _. h);
}
