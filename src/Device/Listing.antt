-- ===== src/Device/Listing.antt =====
-- What a device is told, against the tables: what its daemon is to publish and to forward
-- (`HandleBootstrap`), and what it discovers (`HandleDiscover`).
use oh_my_lan.Prelude.{
  ◌≡◌, refl, String, Bool, false, ◌||◌, ◌==◌, inl, inr, List, [], exists, select, update, count,
  sort_by, Bool-cases,
}
use oh_my_lan.Exec.{ok, pure, gets, on_error, attempt, ◌>>=◌}
use oh_my_lan.Store.{Device, Store, online, statement}
use oh_my_lan.Store.Devices.{device_is, with_status, update_device, update_device_status}
use oh_my_lan.Store.Services.{
  join_devices, earlier_service, list_services_joined, list_services_by_device,
}
use oh_my_lan.Store.Forwards.{join_forwards, lower_port, list_forwards_joined}
use oh_my_lan.Store.Schema.{IsWellFormed}
use oh_my_lan.Server.{Server, on_store}
use oh_my_lan.Http.{
  RemoteEntry, LocalEntry, ServiceBrief, BootstrapResponse, Handler, internal_error, respond,
  briefs_dto, bootstrap_dto,
}
use oh_my_lan.Device.Publish.{discovered, handle_discover}
use oh_my_lan.Device.Consume.{remotes_of, locals_of, handle_bootstrap}
use oh_my_lan.Device.Rows.{
  is_remote, is_local, is_discovered, discovered_rows, remote_rows, local_rows,
}

abbrev briefs_told : String → Store → List ServiceBrief
briefs_told id s = discovered id (
    join_devices s.devices
      (sort_by earlier_service (select (λ v. "" == "" || v.device_id == "") s.services)))

-- The forwards are joined with the devices as they are after the device's status was written.
abbrev bootstrap_told : String → Server → List Device → BootstrapResponse
bootstrap_told id w ds = record {
  server_fingerprint = w.env.fingerprint;
  chisel_addr = w.env.chisel_addr;
  remotes = remotes_of (sort_by earlier_service (select (λ v. v.device_id == id) w.store.services));
  locals = locals_of (
      join_forwards ds w.store.services
        (sort_by lower_port (select (λ f. f.owner_device_id == id) w.store.forwards)));
}

-- If the store does not fail and its tables meet the constraints of the schema, a device that asks
-- what it can reach is answered with the enabled services of the other devices, each once: as many
-- entries have a property as there are rows of such services that give an entry with the property.
pub handle_discover-is_discovered :
    (dev : Device) (w : Server) (p : ServiceBrief → Bool)
    → w.store.faults ≡ []
    → IsWellFormed w.store
    → (bs : List ServiceBrief) × ((handle_discover dev w).0 ≡ ok (respond 200 (briefs_dto bs)))
      × (count p bs ≡ count (is_discovered dev.id w.store.devices p) w.store.services)
unfolding handle_discover list_services_joined statement on_store on_error gets pure ◌>>=◌
handle_discover-is_discovered dev w p quiet h =
    (briefs_told dev.id w.store, rw quiet refl, discovered_rows dev.id p w.store h)

-- what `HandleBootstrap` does after the device's status was written
tell : Device → Handler
tell dev = do
  services ← on_error internal_error (on_store (list_services_by_device dev.id))
  forwards ← on_error internal_error (on_store (list_forwards_joined dev.id))
  env ← gets (λ w. w.env)
  pure (
      respond 200 (
        bootstrap_dto (record {
          server_fingerprint = env.fingerprint;
          chisel_addr = env.chisel_addr;
          remotes = remotes_of services;
          locals = locals_of forwards;
        })))

tell_lem :
    (dev : Device) (w : Server)
    → w.store.faults ≡ []
    → dev.id == "" ≡ false
    → (tell dev w).0 ≡ ok (respond 200 (bootstrap_dto (bootstrap_told dev.id w w.store.devices)))
unfolding tell list_services_by_device list_forwards_joined statement on_store on_error gets pure
    ◌>>=◌
tell_lem dev w quiet named = rw (quiet, named) refl

abbrev with_devices : Server → List Device → Server
with_devices w ds = record w { store = record w.store { devices = ds } }

-- Writing the status changes nothing but the devices.
status_written :
    (id : String) (w : Server)
    → w.store.faults ≡ []
    → (ds : List Device) × ((on_store (update_device_status id online w.now) w).1
        ≡ with_devices w ds)
unfolding update_device_status update_device statement on_store ◌>>=◌
status_written id w quiet = elim (Bool-cases (exists (device_is id) w.store.devices)) [
  | inl there ↦
      (update (device_is id) (with_status online w.now) w.store.devices, rw (quiet, there) refl)
  | inr gone ↦ (w.store.devices, rw (quiet, gone) refl)
]

-- If the store does not fail, the bootstrap of a device whose id is not empty tells its daemon to
-- publish the device's enabled services in the tables and to open its enabled forwards to enabled
-- services of an id that is not empty, each once: as many entries have a property as there are
-- rows that give an entry with the property.
pub handle_bootstrap-is_remote :
    (dev : Device) (w : Server) (p : RemoteEntry → Bool) (q : LocalEntry → Bool)
    → w.store.faults ≡ []
    → dev.id == "" ≡ false
    → (b : BootstrapResponse) × ((handle_bootstrap dev w).0 ≡ ok (respond 200 (bootstrap_dto b)))
      × (count p b.remotes ≡ count (is_remote dev.id p) w.store.services)
      × (count q b.locals ≡ count (is_local dev.id w.store.services q) w.store.forwards)
unfolding handle_bootstrap tell attempt gets ◌>>=◌
handle_bootstrap-is_remote dev w p q quiet named =
    let (ds, written) = status_written dev.id w quiet in
    (
      bootstrap_told dev.id w ds,
      rw written (tell_lem dev (with_devices w ds) quiet named),
      remote_rows dev.id p w.store.services,
      local_rows dev.id q ds w.store.services w.store.forwards,
    )
