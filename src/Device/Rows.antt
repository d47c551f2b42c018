-- ===== src/Device/Rows.antt =====
-- The rows of the tables that a device is told of, and the loops of `HandleBootstrap` and
-- `HandleDiscover` of internal/server/device/device.go over what the SELECTs list.
use oh_my_lan.Prelude.{
  ◌≡◌, refl, ◌∙◌, String, Bool, true, false, not, ◌&&◌, ◌||◌, ◌==◌, arith, Option, none, some, inl,
  inr, List, [], ◌∷◌, exists, first, first-exists, select, count, sort_by, count-sort_by,
  count-select, count-ext, Option-cases,
}
use oh_my_lan.Store.{Device, Service, Forward, Store}
use oh_my_lan.Store.Devices.{device_is}
use oh_my_lan.Store.Services.{ServiceListItem, join_devices, earlier_service, service_is}
use oh_my_lan.Store.Forwards.{join_forwards, name_or_empty, lower_port}
use oh_my_lan.Store.Schema.{IsWellFormed, HasDevice}
use oh_my_lan.Http.{RemoteEntry, LocalEntry, ServiceBrief}
use oh_my_lan.Device.Publish.{discovered, to_brief}
use oh_my_lan.Device.Consume.{remotes_of, locals_of}

-- the entry of a service in the bootstrap of its device
abbrev pub remote_entry : Service → RemoteEntry
remote_entry v = record {
  service_id = v.id;
  public_port = v.public_port;
  local_addr = v.local_addr;
  protocol = v.protocol;
  bind_local = v.bind_local;
}

-- the entry of a forward to a service
abbrev pub local_entry : Forward → Service → LocalEntry
local_entry f v = record {
  forward_id = f.id;
  local_port = f.local_port;
  remote_public_port = v.public_port;
  protocol = v.protocol;
}

-- a service as another device is told of it
abbrev pub brief_of : List Device → Service → ServiceBrief
brief_of ds v = record {
  id = v.id;
  device_id = v.device_id;
  device_name = name_or_empty (first (device_is v.device_id) ds);
  name = v.name;
  protocol = v.protocol;
  public_port = v.public_port;
  enabled = v.enabled;
}

-- an enabled service with a test
abbrev pub enabled_with : (Service → Bool) → Option Service → Bool
enabled_with p none = false
enabled_with p (some v) = v.enabled && p v

-- The rows that a device is told of.
abbrev pub is_remote : String → (RemoteEntry → Bool) → Service → Bool
is_remote id p = λ v. v.device_id == id && (v.enabled && p (remote_entry v))

abbrev pub is_local : String → List Service → (LocalEntry → Bool) → Forward → Bool
is_local id vs p = λ f.
    f.owner_device_id == id
    && (f.enabled
        && not (f.remote_service_id == "")
        && enabled_with (λ v. p (local_entry f v)) (first (service_is f.remote_service_id) vs))

abbrev pub is_discovered : String → List Device → (ServiceBrief → Bool) → Service → Bool
is_discovered id ds p = λ v. not (v.device_id == id) && v.enabled && p (brief_of ds v)

-- The loops.

count-remotes_of :
    (p : RemoteEntry → Bool) (vs : List Service)
    → count p (remotes_of vs) ≡ count (λ v. v.enabled && p (remote_entry v)) vs
unfolding remotes_of
count-remotes_of p [] = refl
count-remotes_of p (v ∷ vs) = ground (arith, count-remotes_of p vs)

told_local : (LocalEntry → Bool) → List Service → Forward → Bool
told_local p vs f =
    f.enabled
    && not (f.remote_service_id == "")
    && enabled_with (λ v. p (local_entry f v)) (first (service_is f.remote_service_id) vs)

count-locals_of :
    (p : LocalEntry → Bool) (ds : List Device) (vs : List Service) (fs : List Forward)
    → count p (locals_of (join_forwards ds vs fs)) ≡ count (told_local p vs) fs
unfolding locals_of join_forwards told_local
count-locals_of p ds vs [] = refl
count-locals_of p ds vs (f ∷ fs) = elim (Option-cases (first (service_is f.remote_service_id) vs)) [
  | inl e ↦ rw e (ground (arith, count-locals_of p ds vs fs))
  | inr found ↦ rw found.1 (ground (arith, count-locals_of p ds vs fs))
]

told_brief : String → (ServiceBrief → Bool) → ServiceListItem → Bool
told_brief id p it = not (it.service.device_id == id) && it.service.enabled && p (to_brief it)

count-discovered :
    (id : String) (p : ServiceBrief → Bool) (items : List ServiceListItem)
    → count p (discovered id items) ≡ count (told_brief id p) items
unfolding discovered told_brief
count-discovered id p [] = refl
count-discovered id p (it ∷ items) = ground (arith, count-discovered id p items)

abbrev joined : List Device → Service → ServiceListItem
joined ds v = record { service = v; device_name = name_or_empty (first (device_is v.device_id) ds) }

count-join_devices :
    (q : ServiceListItem → Bool) (ds : List Device) (vs : List Service)
    → count q (join_devices ds vs)
      ≡ count (λ v. exists (device_is v.device_id) ds && q (joined ds v)) vs
unfolding join_devices
count-join_devices q ds [] = refl
count-join_devices q ds (v ∷ vs) = elim (Option-cases (first (device_is v.device_id) ds)) [
  | inl e ↦
      rw (e, (first-exists (device_is v.device_id) ds).0 e)
        (ground (arith, count-join_devices q ds vs))
  | inr found ↦
      rw (found.1, first-there (device_is v.device_id) ds found.0 found.1)
        (ground (arith, count-join_devices q ds vs))
]
  where
    first-there :
        (p : Device → Bool) (ds : List Device) (d : Device)
        → first p ds ≡ some d
        → exists p ds ≡ true
    first-there p [] d e = absurd (cc e)
    first-there p (x ∷ ds) d e = ground (arith, first-there p ds d)

-- The rows behind the loops: what the SELECTs list.

pub discovered_rows :
    (id : String) (p : ServiceBrief → Bool) (s : Store)
    → IsWellFormed s
    → count p (
        discovered id (
          join_devices s.devices
            (sort_by earlier_service (select (λ v. "" == "" || v.device_id == "") s.services))))
      ≡ count (is_discovered id s.devices p) s.services
unfolding told_brief to_brief
discovered_rows id p s h =
    count-discovered id p _
    ∙ count-join_devices (told_brief id p) s.devices _
    ∙ count-sort_by earlier_service _ _
    ∙ count-select
        (λ v. exists (device_is v.device_id) s.devices && told_brief id p (joined s.devices v))
        (λ v. "" == "" || v.device_id == "") s.services
    ∙ count-ext (λ v. HasDevice s v.device_id)
        (λ v.
          ("" == "" || v.device_id == "")
          && (exists (device_is v.device_id) s.devices && told_brief id p (joined s.devices v)))
        (is_discovered id s.devices p) s.services (λ v there. rw there refl) h.service_devices

pub remote_rows :
    (id : String) (p : RemoteEntry → Bool) (vs : List Service)
    → count p (remotes_of (sort_by earlier_service (select (λ v. v.device_id == id) vs)))
      ≡ count (is_remote id p) vs
remote_rows id p vs = count-remotes_of p _ ∙ count-sort_by earlier_service _ _ ∙ count-select _ _ vs

pub local_rows :
    (id : String) (p : LocalEntry → Bool) (ds : List Device) (vs : List Service) (fs : List Forward)
    → count p (
        locals_of
          (join_forwards ds vs (sort_by lower_port (select (λ f. f.owner_device_id == id) fs))))
      ≡ count (is_local id vs p) fs
unfolding told_local
local_rows id p ds vs fs =
    count-locals_of p ds vs _ ∙ count-sort_by lower_port _ _ ∙ count-select _ _ fs
