-- ===== src/Store/Schema/Updates.antt =====
-- The constraints under updates of devices, services, forwards and tokens.
use oh_my_lan.Prelude.{
  ◌≡◌, refl, true, ℕ, String, Bool, Option, none, some, ◌==◌, ap, ◌∙◌, exists, update, All-imp,
  All-update, NoClash-update, exists-update,
}
use oh_my_lan.Exec.Keeps.{Keeps, branch}
use oh_my_lan.Store.{Device, Service, EnrollmentToken, Store}
use oh_my_lan.Store.Devices.{device_clash, device_is, update_device}
use oh_my_lan.Store.Services.{service_clash, is_protocol, service_is, update_service}
use oh_my_lan.Store.Forwards.{forward_clash, forward_is, forward_enabled, update_forward}
use oh_my_lan.Store.Tokens.{token_clash, mark_used}
use oh_my_lan.Store.Schema.{IsWellFormed, HasDevice, HasService, UsedByDevice}

-- An update of devices that writes neither an id nor a name.
module _ (p : Device → Bool) (f : Device → Device) (same_id : (d : Device) → (f d).id ≡ d.id)
    (same_name : (d : Device) → (f d).name ≡ d.name) where
  still_device :
      (s : Store) (id : String)
      → HasDevice s id
      → HasDevice (record s { devices = update p f s.devices }) id
  still_device s id h =
      exists-update (device_is id) p f s.devices (λ d. ap (λ k. k == id) (same_id d)) ∙ h

  still_used :
      (s : Store) (o : Option String)
      → UsedByDevice s o
      → UsedByDevice (record s { devices = update p f s.devices }) o
  still_used s none u = tt
  still_used s (some id) u = still_device s id u

  pub update_devices-IsWellFormed :
      (s : Store) → IsWellFormed s → IsWellFormed (record s { devices = update p f s.devices })
  update_devices-IsWellFormed s h = record {
    device_keys =
        NoClash-update device_clash p f s.devices (λ d e. cc (same_id d, same_name d))
          (λ d e. cc (same_id e, same_name e)) h.device_keys;
    service_keys = h.service_keys;
    forward_keys = h.forward_keys;
    token_keys = h.token_keys;
    protocols = h.protocols;
    service_devices = All-imp _ _ s.services (λ v. still_device s v.device_id) h.service_devices;
    forward_owners =
        All-imp _ _ s.forwards (λ g. still_device s g.owner_device_id) h.forward_owners;
    forward_services = h.forward_services;
    token_devices = All-imp _ _ s.tokens (λ t. still_used s t.used_by_device_id) h.token_devices;
    alert_devices = All-imp _ _ s.alerts (λ a. still_device s a.0) h.alert_devices;
    alert_keys = h.alert_keys;
    audit_keys = h.audit_keys;
    logins = h.logins;
  }

pub update_device-IsWellFormed :
    (id : String) (f : Device → Device)
    → ((d : Device) → (f d).id ≡ d.id)
    → ((d : Device) → (f d).name ≡ d.name)
    → Keeps IsWellFormed (update_device id f)
unfolding update_device
update_device-IsWellFormed id f same_id same_name = record {
  run = λ s h.
      branch IsWellFormed _ _ _
        (λ _. update_devices-IsWellFormed (device_is id) f same_id same_name s h) (λ _. h);
}

-- An update of services that leaves the row's identity as it is.
pub record SameService (f : Service → Service) : Type 0 where
  pub id : (v : Service) → (f v).id ≡ v.id
  pub device_id : (v : Service) → (f v).device_id ≡ v.device_id
  pub name : (v : Service) → (f v).name ≡ v.name
  pub public_port : (v : Service) → (f v).public_port ≡ v.public_port
  pub protocol : (v : Service) → (f v).protocol ≡ v.protocol

module _ (p : Service → Bool) (f : Service → Service) (same : SameService f) where
  still_service :
      (s : Store) (id : String)
      → HasService s id
      → HasService (record s { services = update p f s.services }) id
  still_service s id h =
      exists-update (service_is id) p f s.services (λ v. ap (λ k. k == id) (same.id v)) ∙ h

  pub update_services-IsWellFormed :
      (s : Store) → IsWellFormed s → IsWellFormed (record s { services = update p f s.services })
  update_services-IsWellFormed s h = record {
    device_keys = h.device_keys;
    service_keys =
        NoClash-update service_clash p f s.services
          (λ v w. cc (same.id v, same.device_id v, same.name v, same.public_port v))
          (λ v w. cc (same.id w, same.device_id w, same.name w, same.public_port w)) h.service_keys;
    forward_keys = h.forward_keys;
    token_keys = h.token_keys;
    protocols =
        All-update (λ v. is_protocol v.protocol ≡ true) p f s.services
          (λ v e. ap is_protocol (same.protocol v) ∙ e) h.protocols;
    service_devices =
        All-update (λ v. HasDevice s v.device_id) p f s.services
          (λ v e. ap (λ k. exists (device_is k) s.devices) (same.device_id v) ∙ e)
          h.service_devices;
    forward_owners = h.forward_owners;
    forward_services =
        All-imp _ _ s.forwards (λ g. still_service s g.remote_service_id) h.forward_services;
    token_devices = h.token_devices;
    alert_devices = h.alert_devices;
    alert_keys = h.alert_keys;
    audit_keys = h.audit_keys;
    logins = h.logins;
  }

pub update_service-IsWellFormed :
    (id : String) (f : Service → Service) → SameService f → Keeps IsWellFormed (update_service id f)
unfolding update_service
update_service-IsWellFormed id f same = record {
  run = λ s h.
      branch IsWellFormed _ _ _ (λ _. update_services-IsWellFormed (service_is id) f same s h)
        (λ _. h);
}

enable_forwards :
    (id : String) (b : Bool) (s : Store)
    → IsWellFormed s
    → IsWellFormed (record s { forwards = update (forward_is id) (forward_enabled b) s.forwards })
enable_forwards id b s h = record {
  device_keys = h.device_keys;
  service_keys = h.service_keys;
  forward_keys =
      NoClash-update forward_clash (forward_is id) (forward_enabled b) s.forwards (λ f g. refl)
        (λ f g. refl) h.forward_keys;
  token_keys = h.token_keys;
  protocols = h.protocols;
  service_devices = h.service_devices;
  forward_owners =
      All-update (λ f. HasDevice s f.owner_device_id) (forward_is id) (forward_enabled b) s.forwards
        (λ f e. e) h.forward_owners;
  forward_services =
      All-update (λ f. HasService s f.remote_service_id) (forward_is id) (forward_enabled b)
        s.forwards (λ f e. e) h.forward_services;
  token_devices = h.token_devices;
  alert_devices = h.alert_devices;
  alert_keys = h.alert_keys;
  audit_keys = h.audit_keys;
  logins = h.logins;
}

pub enable_forward-IsWellFormed :
    (id : String) (b : Bool) → Keeps IsWellFormed (update_forward id (forward_enabled b))
unfolding update_forward
enable_forward-IsWellFormed id b = record {
  run = λ s h. branch IsWellFormed _ _ _ (λ _. enable_forwards id b s h) (λ _. h);
}

-- A token that is marked as used by a device of the table.
pub use_tokens :
    (p : EnrollmentToken → Bool) (now : ℕ) (id : String) (s : Store)
    → HasDevice s id
    → IsWellFormed s
    → IsWellFormed (record s { tokens = update p (mark_used now id) s.tokens })
use_tokens p now id s dev h = record {
  device_keys = h.device_keys;
  service_keys = h.service_keys;
  forward_keys = h.forward_keys;
  token_keys =
      NoClash-update token_clash p (mark_used now id) s.tokens (λ t u. refl) (λ t u. refl)
        h.token_keys;
  protocols = h.protocols;
  service_devices = h.service_devices;
  forward_owners = h.forward_owners;
  forward_services = h.forward_services;
  token_devices =
      All-update (λ t. UsedByDevice s t.used_by_device_id) p (mark_used now id) s.tokens
        (λ t _. dev) h.token_devices;
  alert_devices = h.alert_devices;
  alert_keys = h.alert_keys;
  audit_keys = h.audit_keys;
  logins = h.logins;
}
