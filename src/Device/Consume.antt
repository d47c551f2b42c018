-- ===== src/Device/Consume.antt =====
-- The forwards of a device, and what its daemon asks for: `HandleAddForward`,
-- `HandleListForwards`, `HandleForwardItem` and `HandleBootstrap` of
-- internal/server/device/device.go, and `WriteForwardDTO` of internal/server/api/api.go.
use oh_my_lan.Prelude.{
  ℕ, String, Bool, true, false, not, ◌&&◌, ◌||◌, Option, List, [], ◌∷◌, ◌==◌, ℤ, pos_part,
  if◌then◌else◌,
}
use oh_my_lan.Exec.{pure, raise, gets, refuse_if, on_error, attempt, ◌>>=◌, ◌>>◌}
use oh_my_lan.Text.{cut}
use oh_my_lan.Api.Address.{valid_port}
use oh_my_lan.Store.{Device, Service, Forward, Value, online}
use oh_my_lan.Store.Devices.{get_device_by_id, update_device_status}
use oh_my_lan.Store.Services.{get_service, list_services_by_device}
use oh_my_lan.Store.Forwards.{
  ForwardListItem, create_forward, get_forward, list_forwards_joined, set_forward_enabled,
  delete_forward, forward_enabled,
}
use oh_my_lan.Server.{Fault, on_store, random_text, audit, device_actor}
use oh_my_lan.Http.{
  Method, Handler, respond, write_error, internal_error, missing, conflict, decoded, to_forward_dto,
  forward_item_to_dto, ForwardDto, RemoteEntry, LocalEntry, no_body, forward_dto, forwards_dto,
  bootstrap_dto,
}
use oh_my_lan.Device.Publish.{action_of, is_method}

-- The loop of `HandleBootstrap` over the services of the device.
unfoldable pub remotes_of : List Service → List RemoteEntry
remotes_of [] = []
remotes_of (v ∷ vs) =
    let rest = remotes_of vs in
    if not v.enabled
    then rest
    else record {
      service_id = v.id;
      public_port = v.public_port;
      local_addr = v.local_addr;
      protocol = v.protocol;
      bind_local = v.bind_local;
    }
      ∷ rest

-- The loop of `HandleBootstrap` over its forwards.
unfoldable pub locals_of : List ForwardListItem → List LocalEntry
locals_of [] = []
locals_of (it ∷ items) =
    let rest = locals_of items in
    if not it.forward.enabled || not it.remote_service_enabled || it.forward.remote_service_id == ""
    then rest
    else record {
      forward_id = it.forward.id;
      local_port = it.forward.local_port;
      remote_public_port = it.remote_public_port;
      protocol = it.protocol;
    }
      ∷ rest

unfoldable pub handle_bootstrap : Device → Handler
handle_bootstrap dev = do
  now ← gets (λ w. w.now)
  attempt {E = Fault} (on_store (update_device_status dev.id online now))
  services ← on_error internal_error (on_store (list_services_by_device dev.id))
  forwards ← on_error internal_error (on_store (list_forwards_joined dev.id))
  env ← gets (λ w. w.env)
  pure (
      respond 200 (
        bootstrap_dto (record {
          server_fingerprint = env.fingerprint;
          chisel_addr = env.chisel_addr;
          remotes = remotes_of services;
          locals = locals_of forwards;
        })))

pub record AddForwardRequest : Type 0 where
  pub remote_service_id : String
  pub local_port : ℤ

abbrev pub new_forward : String → String → String → ℕ → ℕ → Forward
new_forward id owner remote port now = record {
  id = id;
  owner_device_id = owner;
  remote_service_id = remote;
  local_port = port;
  enabled = true;
  created_at = now;
}

unfoldable pub handle_add_forward : Device → Option AddForwardRequest → Handler
handle_add_forward dev body = do
  req ← decoded body
  refuse_if (req.remote_service_id == "") (write_error 400 "remote_service_id 必填")
  refuse_if (not (valid_port req.local_port)) (write_error 400 "local_port 必须在 1-65535")
  remote ← on_error (missing "目标服务不存在") (on_store (get_service req.remote_service_id))
  id ← on_error internal_error random_text
  now ← gets (λ w. w.now)
  on_error (conflict "本机已存在相同 local_port 的 forward") (
      on_store (
        create_forward (new_forward id dev.id req.remote_service_id (pos_part req.local_port) now)))
  on_error internal_error (on_store (get_device_by_id remote.device_id))
  on_error internal_error (
      audit (device_actor dev.id) "forward.add" id (
        ("remote_service_id", Value.text req.remote_service_id)
        ∷ ("local_port", Value.number (pos_part req.local_port))
        ∷ []))
  pure (
      respond 201 (
        forward_dto (
          to_forward_dto (new_forward id dev.id req.remote_service_id (pos_part req.local_port) now)
            remote)))

-- A row whose service id is empty is left out.
unfoldable pub listed_forwards : List ForwardListItem → List ForwardDto
listed_forwards [] = []
listed_forwards (it ∷ items) =
    let rest = listed_forwards items in
    if it.forward.remote_service_id == "" then rest else forward_item_to_dto it ∷ rest

unfoldable pub handle_list_forwards : Device → Handler
handle_list_forwards dev = do
  list ← on_error internal_error (on_store (list_forwards_joined dev.id))
  pure (respond 200 (forwards_dto (listed_forwards list)))

unfoldable pub write_forward_dto : Forward → Handler
write_forward_dto f = do
  remote ← on_error internal_error (on_store (get_service f.remote_service_id))
  on_error internal_error (on_store (get_device_by_id remote.device_id))
  pure (respond 200 (forward_dto (to_forward_dto f remote)))

unfoldable pub remove_forward : String → String → Handler
remove_forward actor id = do
  on_error internal_error (on_store (delete_forward id))
  on_error internal_error (audit actor "forward.delete" id [])
  pure (respond 204 no_body)

abbrev pub forward_word : Bool → String
forward_word true = "forward.enable"
forward_word false = "forward.disable"

unfoldable pub switch_forward : String → Forward → String → Bool → Handler
unfolding write_forward_dto
switch_forward actor f id b = do
  on_error internal_error (on_store (set_forward_enabled id b))
  on_error internal_error (audit actor (forward_word b) id [])
  write_forward_dto (forward_enabled b f)

-- the `switch` at the end, which the admin's handler has too
unfoldable pub forward_action : String → Forward → String → String → Method → Handler
unfolding remove_forward switch_forward
forward_action actor f id action method =
    if action == "" && is_method method Method.delete
    then remove_forward actor id
    else if action == "enable" && is_method method Method.post
    then switch_forward actor f id true
    else if action == "disable" && is_method method Method.post
    then switch_forward actor f id false
    else raise (write_error 405 "不支持的方法或路径")

unfoldable pub handle_forward_item : Device → Method → String → Handler
unfolding cut
handle_forward_item dev method rest = do
  let (id, action) = cut b'/' rest
  refuse_if (id == "") (write_error 400 "URL 中缺少 forward id")
  f ← on_error (missing "forward 不存在") (on_store (get_forward id))
  refuse_if (not (f.owner_device_id == dev.id)) (write_error 404 "forward 不存在")
  forward_action (device_actor dev.id) f id (action_of action) method
