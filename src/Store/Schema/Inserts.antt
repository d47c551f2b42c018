-- ===== src/Store/Schema/Inserts.antt =====
-- The constraints under the insertion of devices, services, forwards and tokens.
use oh_my_lan.Prelude.{
  ◌≡◌, true, false, String, Bool, ◌||◌, not, ◌&&◌, Option, none, some, List, [], ◌∷◌, arith, exists,
  All-imp,
}
use oh_my_lan.Exec.Keeps.{Keeps, branch}
use oh_my_lan.Store.{Device, Service, Forward, EnrollmentToken, Store, take_fault, statement}
use oh_my_lan.Store.Devices.{device_clash, insert_device}
use oh_my_lan.Store.Services.{service_clash, is_protocol, insert_service}
use oh_my_lan.Store.Forwards.{forward_clash, insert_forward}
use oh_my_lan.Store.Tokens.{token_clash, insert_token}
use oh_my_lan.Store.Schema.{IsWellFormed, HasDevice, HasService, UsedByDevice}

pub with_faults :
    (s : Store) (l : List Bool) → IsWellFormed s → IsWellFormed (record s { faults = l })
with_faults s l h = assumption

take_fault-IsWellFormed :
    (s : Store) (l : List Bool) → IsWellFormed s → IsWellFormed (take_fault s l).1
take_fault-IsWellFormed s [] h = h
take_fault-IsWellFormed s (true ∷ rest) h = with_faults s rest h
take_fault-IsWellFormed s (false ∷ rest) h = with_faults s rest h

pub statement-IsWellFormed : Keeps IsWellFormed statement
unfolding statement
statement-IsWellFormed = record { run = λ s. take_fault-IsWellFormed s s.faults }

-- one more row in the table that a reference is looked up in
pub or_right : (a b : Bool) → b ≡ true → a || b ≡ true
or_right a b h = ground arith

pub add_device :
    (d : Device) (s : Store)
    → exists (device_clash d) s.devices ≡ false
    → IsWellFormed s
    → IsWellFormed (record s { devices = d ∷ s.devices })
add_device d s fresh h = record {
  device_keys = (fresh, h.device_keys);
  service_keys = h.service_keys;
  forward_keys = h.forward_keys;
  token_keys = h.token_keys;
  protocols = h.protocols;
  service_devices = All-imp _ _ s.services (λ v. or_right _ _) h.service_devices;
  forward_owners = All-imp _ _ s.forwards (λ f. or_right _ _) h.forward_owners;
  forward_services = h.forward_services;
  token_devices = All-imp _ _ s.tokens (λ t. used t.used_by_device_id) h.token_devices;
  alert_devices = All-imp _ _ s.alerts (λ a. or_right _ _) h.alert_devices;
  alert_keys = h.alert_keys;
  audit_keys = h.audit_keys;
  logins = h.logins;
}
  where
    used :
        (o : Option String)
        → UsedByDevice s o
        → UsedByDevice (record s { devices = d ∷ s.devices }) o
    used none u = tt
    used (some id) u = or_right _ _ u

pub insert_device-IsWellFormed : (d : Device) → Keeps IsWellFormed (insert_device d)
unfolding insert_device
insert_device-IsWellFormed d = record {
  run = λ s h. branch IsWellFormed _ _ _ (λ _. h) (λ fresh. add_device d s fresh h);
}

add_service :
    (v : Service) (s : Store)
    → is_protocol v.protocol ≡ true
    → exists (service_clash v) s.services ≡ false
    → HasDevice s v.device_id
    → IsWellFormed s
    → IsWellFormed (record s { services = v ∷ s.services })
add_service v s proto fresh dev h = record {
  device_keys = h.device_keys;
  service_keys = (fresh, h.service_keys);
  forward_keys = h.forward_keys;
  token_keys = h.token_keys;
  protocols = (proto, h.protocols);
  service_devices = (dev, h.service_devices);
  forward_owners = h.forward_owners;
  forward_services = All-imp _ _ s.forwards (λ f. or_right _ _) h.forward_services;
  token_devices = h.token_devices;
  alert_devices = h.alert_devices;
  alert_keys = h.alert_keys;
  audit_keys = h.audit_keys;
  logins = h.logins;
}

not-false : (b : Bool) → not b ≡ false → b ≡ true
not-false b h = ground arith

pub insert_service-IsWellFormed : (v : Service) → Keeps IsWellFormed (insert_service v)
unfolding insert_service
insert_service-IsWellFormed v = record {
  run = λ s h.
      branch IsWellFormed _ _ _ (λ _. h)
        λ proto.
          branch IsWellFormed _ _ _ (λ _. h)
            λ fresh.
              branch IsWellFormed _ _ _ (λ dev. add_service v s (not-false _ proto) fresh dev h)
                (λ _. h);
}

add_forward :
    (f : Forward) (s : Store)
    → exists (forward_clash f) s.forwards ≡ false
    → HasDevice s f.owner_device_id
    → HasService s f.remote_service_id
    → IsWellFormed s
    → IsWellFormed (record s { forwards = f ∷ s.forwards })
add_forward f s fresh dev serv h = record {
  device_keys = h.device_keys;
  service_keys = h.service_keys;
  forward_keys = (fresh, h.forward_keys);
  token_keys = h.token_keys;
  protocols = h.protocols;
  service_devices = h.service_devices;
  forward_owners = (dev, h.forward_owners);
  forward_services = (serv, h.forward_services);
  token_devices = h.token_devices;
  alert_devices = h.alert_devices;
  alert_keys = h.alert_keys;
  audit_keys = h.audit_keys;
  logins = h.logins;
}

both : (a b : Bool) → a && b ≡ true → (a ≡ true) × (b ≡ true)
both a b h = ground arith

pub insert_forward-IsWellFormed : (f : Forward) → Keeps IsWellFormed (insert_forward f)
unfolding insert_forward
insert_forward-IsWellFormed f = record {
  run = λ s h.
      branch IsWellFormed _ _ _ (λ _. h)
        λ fresh.
          branch IsWellFormed _ _ _
            (λ refs. let (dev, serv) = both _ _ refs in add_forward f s fresh dev serv h) (λ _. h);
}

add_token :
    (t : EnrollmentToken) (s : Store)
    → exists (token_clash t) s.tokens ≡ false
    → UsedByDevice s t.used_by_device_id
    → IsWellFormed s
    → IsWellFormed (record s { tokens = t ∷ s.tokens })
add_token t s fresh used h = record {
  device_keys = h.device_keys;
  service_keys = h.service_keys;
  forward_keys = h.forward_keys;
  token_keys = (fresh, h.token_keys);
  protocols = h.protocols;
  service_devices = h.service_devices;
  forward_owners = h.forward_owners;
  forward_services = h.forward_services;
  token_devices = (used, h.token_devices);
  alert_devices = h.alert_devices;
  alert_keys = h.alert_keys;
  audit_keys = h.audit_keys;
  logins = h.logins;
}

pub insert_token-IsWellFormed :
    (t : EnrollmentToken)
    → ((s : Store) → UsedByDevice s t.used_by_device_id)
    → Keeps IsWellFormed (insert_token t)
unfolding insert_token
insert_token-IsWellFormed t used = record {
  run = λ s h. branch IsWellFormed _ _ _ (λ _. h) (λ fresh. add_token t s fresh (used s) h);
}
