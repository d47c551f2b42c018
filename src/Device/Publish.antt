-- ===== src/Device/Publish.antt =====
-- The services of a device: `HandleAddService`, `HandleListServices`, `HandleServiceItem` and
-- `HandleListAllServices` of internal/server/device/device.go.
use oh_my_lan.Prelude.{
  ℕ, String, Bool, true, false, not, ◌&&◌, ◌||◌, Option, none, some, List, [], ◌∷◌, map, ◌==◌,
  if◌then◌else◌,
}
use oh_my_lan.Exec.{Result, ok, err, Exec, pure, raise, gets, refuse_if, on_error, ◌>>=◌, ◌>>◌}
use oh_my_lan.Text.{cut}
use oh_my_lan.Api.Address.{AddressError, normalize_local_addr}
use oh_my_lan.Api.Ports.{AllocateError, pool_exhausted, listing, allocate}
use oh_my_lan.Store.{Device, Service, Value, protocol_tcp, protocol_udp}
use oh_my_lan.Store.Services.{
  ServiceListItem, create_service, get_service, list_services_by_device, list_services_joined,
  set_service_enabled, delete_service, service_enabled,
}
use oh_my_lan.Server.{Server, on_store, random_text, audit, device_actor}
use oh_my_lan.Http.{
  Method, Handler, Response, respond, write_error, internal_error, missing, conflict, decoded,
  to_service_dto, ServiceBrief, no_body, address_failure, service_dto, services_dto, briefs_dto,
  failure,
}

pub record AddServiceRequest : Type 0 where
  pub name : String
  pub protocol : String
  pub local_addr : String
  pub bind_local : Option Bool

abbrev pub is_tcp_or_udp : String → Bool
is_tcp_or_udp p = p == protocol_tcp || p == protocol_udp

unfoldable pub normalized : Result AddressError String → Exec Server Response String
normalized (ok s) w = (ok s, w)
normalized (err e) w = (err (respond 400 (address_failure e)), w)

abbrev pub unavailable : AllocateError → Response
unavailable pool_exhausted = write_error 503 "公网端口池已用尽"
unavailable (listing f) = respond 503 (failure f)

-- What the request leaves out is bound to the loopback address.
abbrev pub bind_local_or_true : Option Bool → Bool
bind_local_or_true none = true
bind_local_or_true (some b) = b

abbrev pub new_service : String → String → AddServiceRequest → String → ℕ → ℕ → Service
new_service id device_id req addr port now = record {
  id = id;
  device_id = device_id;
  name = req.name;
  protocol = req.protocol;
  local_addr = addr;
  public_port = port;
  enabled = true;
  bind_local = bind_local_or_true req.bind_local;
  created_at = now;
  last_probe_at = none;
  last_probe_ok = false;
}

unfoldable pub handle_add_service : Device → Option AddServiceRequest → Handler
handle_add_service dev body = do
  req ← decoded body
  refuse_if (req.name == "" || req.local_addr == "") (write_error 400 "name / local_addr 必填")
  refuse_if (not (is_tcp_or_udp req.protocol)) (write_error 400 "protocol 必须是 tcp 或 udp")
  addr ← normalized (normalize_local_addr req.local_addr)
  port ← on_error unavailable allocate
  id ← on_error internal_error random_text
  now ← gets (λ w. w.now)
  on_error (conflict "服务名已存在或端口冲突")
      (on_store (create_service (new_service id dev.id req addr port now)))
  on_error internal_error (
      audit (device_actor dev.id) "service.add" id (
        ("name", Value.text req.name)
        ∷ ("protocol", Value.text req.protocol)
        ∷ ("public_port", Value.number port)
        ∷ ("bind_local", Value.flag (bind_local_or_true req.bind_local))
        ∷ []))
  pure (respond 201 (service_dto (to_service_dto (new_service id dev.id req addr port now))))

unfoldable pub handle_list_services : Device → Handler
handle_list_services dev = do
  list ← on_error internal_error (on_store (list_services_by_device dev.id))
  pure (respond 200 (services_dto (map to_service_dto list)))

-- The rest of a path behind the route: an id, and an action behind a slash.
abbrev pub action_of : Option String → String
action_of none = ""
action_of (some action) = action

abbrev pub is_method : Method → Method → Bool
is_method Method.get Method.get = true
is_method Method.post Method.post = true
is_method Method.put Method.put = true
is_method Method.patch Method.patch = true
is_method Method.delete Method.delete = true
is_method Method.options Method.options = true
is_method _ _ = false

unfoldable pub remove_service : String → String → Handler
remove_service actor id = do
  on_error internal_error (on_store (delete_service id))
  on_error internal_error (audit actor "service.delete" id [])
  pure (respond 204 no_body)

abbrev pub enable_word : Bool → String
enable_word true = "service.enable"
enable_word false = "service.disable"

unfoldable pub switch_service : String → Service → String → Bool → Handler
switch_service actor v id b = do
  on_error internal_error (on_store (set_service_enabled id b))
  on_error internal_error (audit actor (enable_word b) id [])
  pure (respond 200 (service_dto (to_service_dto (service_enabled b v))))

-- the `switch` at the end, which the admin's handler has too
unfoldable pub service_action : String → Service → String → String → Method → Handler
unfolding remove_service switch_service
service_action actor v id action method =
    if action == "" && is_method method Method.delete
    then remove_service actor id
    else if action == "enable" && is_method method Method.post
    then switch_service actor v id true
    else if action == "disable" && is_method method Method.post
    then switch_service actor v id false
    else raise (write_error 405 "不支持的方法或路径")

unfoldable pub handle_service_item : Device → Method → String → Handler
unfolding cut
handle_service_item dev method rest = do
  let (id, action) = cut b'/' rest
  refuse_if (id == "") (write_error 400 "URL 中缺少 service id")
  v ← on_error (missing "服务不存在") (on_store (get_service id))
  refuse_if (not (v.device_id == dev.id)) (write_error 404 "服务不存在")
  service_action (device_actor dev.id) v id (action_of action) method

unfoldable pub to_brief : ServiceListItem → ServiceBrief
to_brief it = record {
  id = it.service.id;
  device_id = it.service.device_id;
  device_name = it.device_name;
  name = it.service.name;
  protocol = it.service.protocol;
  public_port = it.service.public_port;
  enabled = it.service.enabled;
}

unfoldable pub handle_list_all_services : Handler
handle_list_all_services = do
  list ← on_error internal_error (on_store (list_services_joined ""))
  pure (respond 200 (briefs_dto (map to_brief list)))

-- The loop of `HandleDiscover`: what other devices publish, and only what is enabled.
unfoldable pub discovered : String → List ServiceListItem → List ServiceBrief
unfolding to_brief
discovered id [] = []
discovered id (it ∷ items) =
    let rest = discovered id items in
    if it.service.device_id == id
    then rest
    else if not it.service.enabled
    then rest
    else to_brief it ∷ rest

unfoldable pub handle_discover : Device → Handler
unfolding discovered
handle_discover dev = do
  list ← on_error internal_error (on_store (list_services_joined ""))
  pure (respond 200 (briefs_dto (discovered dev.id list)))
