-- ===== src/Store/Services.antt =====
-- internal/store/service.go
use oh_my_lan.Prelude.{
  ℕ, String, Bool, false, not, ◌&&◌, ◌||◌, Option, none, some, List, [], ◌∷◌, map, ◌==◌, nat_eq,
  exists, first, select, delete, update, sort_by, if◌then◌else◌,
}
use oh_my_lan.Exec.{ok, err, Exec, gets, modify, ◌>>=◌, ◌>>◌}
use oh_my_lan.Time.{text_lt, whole_seconds}
use oh_my_lan.Store.{
  Device, Service, protocol_tcp, protocol_udp, Store, Error, not_found, unique, foreign_key, check,
  statement, found,
}
use oh_my_lan.Store.Devices.{device_is}

-- PRIMARY KEY(id), UNIQUE(public_port), UNIQUE(device_id, name)
abbrev pub service_clash : Service → Service → Bool
service_clash v w =
    v.id == w.id
    || nat_eq v.public_port w.public_port
    || (v.device_id == w.device_id && v.name == w.name)

-- CHECK(protocol IN ('tcp','udp'))
abbrev pub is_protocol : String → Bool
is_protocol p = p == protocol_tcp || p == protocol_udp

-- INSERT INTO services: the checks of the row, its keys, then the reference to its device.
unfoldable pub insert_service : Service → Exec Store Error (Unit {0})
insert_service v s =
    if not (is_protocol v.protocol)
    then (err check, s)
    else if exists (service_clash v) s.services
    then (err unique, s)
    else if exists (device_is v.device_id) s.devices
    then (ok tt, record s { services = v ∷ s.services })
    else (err foreign_key, s)

unfoldable pub create_service : Service → Exec Store Error (Unit {0})
unfolding insert_service
create_service v = do
  statement
  insert_service (record v { last_probe_at = none; last_probe_ok = false })

abbrev pub service_is : String → Service → Bool
service_is id v = v.id == id

unfoldable pub get_service : String → Exec Store Error Service
unfolding found
get_service id = do statement; row ← gets (λ s. first (service_is id) s.services); found row

abbrev pub earlier_service : Service → Service → Bool
earlier_service v w = text_lt v.created_at w.created_at

unfoldable pub list_services_by_device : String → Exec Store Error (List Service)
list_services_by_device device_id = do
  statement
  gets (λ s. sort_by earlier_service (select (λ v. v.device_id == device_id) s.services))

unfoldable pub list_all_services : Exec Store Error (List Service)
list_all_services = do statement; gets (λ s. sort_by earlier_service s.services)

pub record ServiceListItem : Type 0 where
  pub service : Service
  pub device_name : String

abbrev pub device_name_of : Option Device → List ServiceListItem → Service → List ServiceListItem
device_name_of none rest v = rest
device_name_of (some d) rest v = record { service = v; device_name = d.name } ∷ rest

-- JOIN devices ON device_id = id: a service without its device is not in the join.
unfoldable pub join_devices : List Device → List Service → List ServiceListItem
join_devices ds [] = []
join_devices ds (v ∷ vs) = device_name_of (first (device_is v.device_id) ds) (join_devices ds vs) v

-- The empty id stands for every device.
unfoldable pub list_services_joined : String → Exec Store Error (List ServiceListItem)
unfolding join_devices
list_services_joined device_id = do
  statement
  gets (λ s. join_devices s.devices (
      sort_by earlier_service
        (select (λ v. device_id == "" || v.device_id == device_id) s.services)))

unfoldable pub used_public_ports : Exec Store Error (List ℕ)
used_public_ports = do statement; gets (λ s. map (λ v. v.public_port) s.services)

unfoldable pub update_service : String → (Service → Service) → Exec Store Error (Unit {0})
update_service id f s =
    if exists (service_is id) s.services
    then (ok tt, record s { services = update (service_is id) f s.services })
    else (err not_found, s)

abbrev pub service_enabled : Bool → Service → Service
service_enabled b v = record v { enabled = b }

unfoldable pub set_service_enabled : String → Bool → Exec Store Error (Unit {0})
unfolding update_service
set_service_enabled id b = do statement; update_service id (service_enabled b)

abbrev pub service_bind_local : Bool → Service → Service
service_bind_local b v = record v { bind_local = b }

unfoldable pub set_service_bind_local : String → Bool → Exec Store Error (Unit {0})
unfolding update_service
set_service_bind_local id b = do statement; update_service id (service_bind_local b)

-- the text of `time.RFC3339` stops at the seconds
abbrev pub probed : Bool → ℕ → Service → Service
probed success t v = record v { last_probe_at = some (whole_seconds t); last_probe_ok = success }

-- An update that affects no row is no error here.
unfoldable pub record_service_probe : String → Bool → ℕ → Exec Store Error (Unit {0})
record_service_probe id success t = do
  statement
  modify (λ s. record s { services = update (service_is id) (probed success t) s.services })

-- DELETE FROM services WHERE id = ?, which takes the forwards to it along
unfoldable pub cascade_service : String → Store → Store
cascade_service id s = record s {
  services = delete (service_is id) s.services;
  forwards = delete (λ f. f.remote_service_id == id) s.forwards;
}

unfoldable pub delete_service_row : String → Exec Store Error (Unit {0})
unfolding cascade_service
delete_service_row id s =
    if exists (service_is id) s.services then (ok tt, cascade_service id s) else (err not_found, s)

unfoldable pub delete_service : String → Exec Store Error (Unit {0})
unfolding delete_service_row
delete_service id = do statement; delete_service_row id
