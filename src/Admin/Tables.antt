-- ===== src/Admin/Tables.antt =====
-- The services and forwards of all devices: `HandleAdminCreateService`, `HandleAdminServiceItem`,
-- `HandleAdminCreateForward` and `HandleAdminForwardItem` of internal/server/admin/admin.go.
use oh_my_lan.Prelude.{String, not, ◌&&◌, ◌||◌, Option, [], ◌∷◌, ◌==◌, pos_part, if◌then◌else◌}
use oh_my_lan.Exec.{pure, gets, refuse_if, on_error, attempt, ◌>>=◌, ◌>>◌}
use oh_my_lan.Text.{cut}
use oh_my_lan.Api.Address.{normalize_local_addr, valid_port}
use oh_my_lan.Api.Ports.{allocate}
use oh_my_lan.Store.{Value}
use oh_my_lan.Store.Devices.{get_device_by_id}
use oh_my_lan.Store.Services.{create_service, get_service, list_services_joined}
use oh_my_lan.Store.Forwards.{create_forward, get_forward}
use oh_my_lan.Server.{Fault, on_store, random_text, audit}
use oh_my_lan.Http.{
  Method, Handler, respond, write_error, internal_error, missing, conflict, decoded, to_service_dto,
  to_forward_dto, service_dto, forward_dto, joined_services_dto,
}
use oh_my_lan.Device.Publish.{
  AddServiceRequest, is_tcp_or_udp, normalized, unavailable, bind_local_or_true, new_service,
  action_of, is_method, service_action,
}
use oh_my_lan.Device.Consume.{AddForwardRequest, new_forward, forward_action}

-- `AdminAddServiceRequest` is an `AddServiceRequest` and the device it is made for.
unfoldable pub handle_admin_create_service : String → Option (String × AddServiceRequest) → Handler
handle_admin_create_service actor body = do
  (device_id, req) ← decoded body
  refuse_if (device_id == "" || req.name == "" || req.local_addr == "")
      (write_error 400 "device_id / name / local_addr 必填")
  refuse_if (not (is_tcp_or_udp req.protocol)) (write_error 400 "protocol 必须是 tcp 或 udp")
  addr ← normalized (normalize_local_addr req.local_addr)
  on_error (missing "device 不存在") (on_store (get_device_by_id device_id))
  port ← on_error unavailable allocate
  id ← on_error internal_error random_text
  now ← gets (λ w. w.now)
  on_error (conflict "该设备已有同名服务或端口冲突")
      (on_store (create_service (new_service id device_id req addr port now)))
  on_error internal_error (
      audit actor "service.add" id (
        ("on_behalf_of", Value.text device_id)
        ∷ ("name", Value.text req.name)
        ∷ ("public_port", Value.number port)
        ∷ ("bind_local", Value.flag (bind_local_or_true req.bind_local))
        ∷ []))
  pure (respond 201 (service_dto (to_service_dto (new_service id device_id req addr port now))))

-- `HandleAdminListServices`
unfoldable pub handle_admin_list_services : Handler
handle_admin_list_services = do
  list ← on_error internal_error (on_store (list_services_joined ""))
  pure (respond 200 (joined_services_dto list))

unfoldable pub admin_service_item : String → Method → String → Handler
unfolding cut
admin_service_item actor method rest = do
  let (id, action) = cut b'/' rest
  refuse_if (id == "") (write_error 400 "URL 中缺少 service id")
  v ← on_error (missing "服务不存在") (on_store (get_service id))
  service_action actor v id (action_of action) method

unfoldable pub handle_admin_service_item : String → Method → String → Handler
unfolding admin_service_item
handle_admin_service_item actor method rest =
    if rest == "all" && is_method method Method.get
    then handle_admin_list_services
    else admin_service_item actor method rest

-- `AdminAddForwardRequest` is an `AddForwardRequest` and the device that owns the forward.
unfoldable pub handle_admin_create_forward : String → Option (String × AddForwardRequest) → Handler
handle_admin_create_forward actor body = do
  (owner, req) ← decoded body
  refuse_if (owner == "" || req.remote_service_id == "")
      (write_error 400 "owner_device_id / remote_service_id 必填")
  refuse_if (not (valid_port req.local_port)) (write_error 400 "local_port 必须在 1-65535")
  on_error (missing "owner device 不存在") (on_store (get_device_by_id owner))
  remote ← on_error (missing "目标服务不存在") (on_store (get_service req.remote_service_id))
  id ← on_error internal_error random_text
  now ← gets (λ w. w.now)
  on_error (conflict "该设备已有相同 local_port 的 forward") (
      on_store
        (create_forward (new_forward id owner req.remote_service_id (pos_part req.local_port) now)))
  attempt {E = Fault} (on_store (get_device_by_id remote.device_id))
  on_error internal_error (
      audit actor "forward.add" id (
        ("owner", Value.text owner)
        ∷ ("remote_service_id", Value.text req.remote_service_id)
        ∷ ("local_port", Value.number (pos_part req.local_port))
        ∷ []))
  pure (
      respond 201 (
        forward_dto (
          to_forward_dto (new_forward id owner req.remote_service_id (pos_part req.local_port) now)
            remote)))

unfoldable pub handle_admin_forward_item : String → Method → String → Handler
unfolding cut
handle_admin_forward_item actor method rest = do
  let (id, action) = cut b'/' rest
  refuse_if (id == "") (write_error 400 "URL 中缺少 forward id")
  f ← on_error (missing "forward 不存在") (on_store (get_forward id))
  forward_action actor f id (action_of action) method
