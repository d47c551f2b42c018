-- ===== src/Store/Devices.antt =====
-- internal/store/device.go
use oh_my_lan.Prelude.{
  ℕ, String, Bool, true, false, ◌&&◌, ◌||◌, Option, none, some, List, [], ◌∷◌, ◌==◌, exists, first,
  select, delete, update, count, sort_by, if◌then◌else◌,
}
use oh_my_lan.Exec.{ok, err, Exec, pure, gets, modify, ◌>>=◌, ◌>>◌}
use oh_my_lan.Time.{text_lt}
use oh_my_lan.Store.{
  Device, Service, Forward, EnrollmentToken, offline, online, Store, Error, not_found, unique,
  statement, found,
}

abbrev pub device_clash : Device → Device → Bool
device_clash d e = d.id == e.id || d.name == e.name

-- INSERT INTO devices: `id` is the primary key, and `name` is unique.
unfoldable pub insert_device : Device → Exec Store Error (Unit {0})
insert_device d s =
    if exists (device_clash d) s.devices
    then (err unique, s)
    else (ok tt, record s { devices = d ∷ s.devices })

unfoldable pub status_or_default : String → String
status_or_default s = if s == "" then offline else s

-- The INSERT gives a new row neither a last_seen_at nor an ssh_locked_at.
unfoldable pub create_device : Device → Exec Store Error (Unit {0})
unfolding insert_device status_or_default
create_device d = do
  statement
  insert_device
      (record d { status = status_or_default d.status; last_seen_at = none; ssh_locked_at = none })

abbrev pub device_is : String → Device → Bool
device_is id d = d.id == id

unfoldable pub get_device_by_id : String → Exec Store Error Device
unfolding found
get_device_by_id id = do statement; row ← gets (λ s. first (device_is id) s.devices); found row

unfoldable pub get_device_by_name : String → Exec Store Error Device
unfolding found
get_device_by_name name = do
  statement
  row ← gets (λ s. first (λ d. d.name == name) s.devices)
  found row

unfoldable pub list_devices : Exec Store Error (List Device)
list_devices = do
  statement
  gets (λ s. sort_by (λ d e. text_lt d.created_at e.created_at) s.devices)

-- UPDATE devices SET … WHERE id = ?, and `ErrNotFound` if it affects no row
unfoldable pub update_device : String → (Device → Device) → Exec Store Error (Unit {0})
update_device id f s =
    if exists (device_is id) s.devices
    then (ok tt, record s { devices = update (device_is id) f s.devices })
    else (err not_found, s)

abbrev pub with_status : String → ℕ → Device → Device
with_status status last_seen d = record d { status = status; last_seen_at = some last_seen }

unfoldable pub update_device_status : String → String → ℕ → Exec Store Error (Unit {0})
unfolding update_device
update_device_status id status last_seen = do
  statement
  update_device id (with_status status last_seen)

-- `last_seen_at IS NULL OR last_seen_at < ?`
abbrev pub seen_before : ℕ → Option ℕ → Bool
seen_before cutoff none = true
seen_before cutoff (some t) = text_lt t cutoff

abbrev pub is_stale : ℕ → Device → Bool
is_stale before d = d.status == online && seen_before before d.last_seen_at

abbrev pub go_offline : Device → Device
go_offline d = record d { status = offline }

unfoldable pub mark_stale_devices_offline : ℕ → Exec Store Error ℕ
mark_stale_devices_offline before = do
  statement
  n ← gets (λ s. count (is_stale before) s.devices)
  modify (λ s. record s { devices = update (is_stale before) go_offline s.devices })
  pure n

abbrev pub with_ssh : String → String → Device → Device
with_ssh pubkey username d = record d { ssh_pubkey = pubkey; ssh_username = username }

unfoldable pub set_device_ssh : String → String → String → Exec Store Error (Unit {0})
unfolding update_device
set_device_ssh id pubkey username = do statement; update_device id (with_ssh pubkey username)

abbrev pub with_ssh_lock : ℕ → Device → Device
with_ssh_lock t d = record d { ssh_locked_at = some t; status = offline }

unfoldable pub mark_device_ssh_locked : String → ℕ → Exec Store Error (Unit {0})
unfolding update_device
mark_device_ssh_locked id locked_at = do statement; update_device id (with_ssh_lock locked_at)

-- `ssh_locked_at IS NOT NULL AND ssh_locked_at < ?`
abbrev pub locked_before : ℕ → Option ℕ → Bool
locked_before cutoff none = false
locked_before cutoff (some t) = text_lt t cutoff

unfoldable pub list_ssh_locked_before : ℕ → Exec Store Error (List Device)
list_ssh_locked_before before = do
  statement
  gets (λ s. select (λ d. locked_before before d.ssh_locked_at) s.devices)

pub record DeviceWithCounts : Type 0 where
  pub device : Device
  pub services_count : ℕ
  pub forwards_count : ℕ

unfoldable pub with_counts : Store → List Device → List DeviceWithCounts
with_counts s [] = []
with_counts s (d ∷ ds) =
    record {
      device = d;
      services_count = count (λ v. v.device_id == d.id) s.services;
      forwards_count = count (λ f. f.owner_device_id == d.id) s.forwards;
    }
    ∷ with_counts s ds

unfoldable pub list_devices_with_counts : Exec Store Error (List DeviceWithCounts)
unfolding with_counts
list_devices_with_counts = do
  statement
  gets (λ s. with_counts s (sort_by (λ d e. text_lt d.created_at e.created_at) s.devices))

-- the services that go with a device
abbrev pub service_of : String → Service → Bool
service_of id v = v.device_id == id

-- the forwards that go with a device: its own, and those to its services
abbrev pub forward_of : String → List Service → Forward → Bool
forward_of id services f =
    f.owner_device_id == id || exists (λ v. v.id == f.remote_service_id && service_of id v) services

-- ON DELETE SET NULL
abbrev pub used_by : String → Option String → Bool
used_by id none = false
used_by id (some d) = d == id

abbrev pub forget_device : EnrollmentToken → EnrollmentToken
forget_device t = record t { used_by_device_id = none }

-- The rows that DELETE FROM devices WHERE id = ? takes along: ON DELETE CASCADE from services,
-- forwards and device_alert_state, ON DELETE SET NULL from enrollment_tokens.
unfoldable pub cascade_device : String → Store → Store
cascade_device id s = record s {
  devices = delete (device_is id) s.devices;
  services = delete (service_of id) s.services;
  forwards = delete (forward_of id s.services) s.forwards;
  tokens = update (λ t. used_by id t.used_by_device_id) forget_device s.tokens;
  alerts = delete (λ a. a.0 == id) s.alerts;
}

unfoldable pub delete_device_row : String → Exec Store Error (Unit {0})
unfolding cascade_device
delete_device_row id s =
    if exists (device_is id) s.devices then (ok tt, cascade_device id s) else (err not_found, s)

unfoldable pub delete_device : String → Exec Store Error (Unit {0})
unfolding delete_device_row
delete_device id = do statement; delete_device_row id
