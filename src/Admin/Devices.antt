-- ===== src/Admin/Devices.antt =====
-- `HandleAdminDeviceItem` of internal/server/admin/admin.go: kick and revoke.
use oh_my_lan.Prelude.{String, Bool, not, ◌||◌, Option, none, some, [], ◌∷◌, ◌==◌, if◌then◌else◌}
use oh_my_lan.Exec.{
  Result, ok, err, Exec, pure, raise, gets, refuse_if, on_error, attempt, ◌>>=◌, ◌>>◌,
}
use oh_my_lan.Text.{cut}
use oh_my_lan.Store.{Device, Value}
use oh_my_lan.Store.Devices.{get_device_by_id, delete_device, mark_device_ssh_locked}
use oh_my_lan.Server.{
  Server, Fault, of_command, on_store, outside, add_device, remove_device, audit,
}
use oh_my_lan.Http.{Method, Handler, respond, write_error, internal_error, missing, no_body}
use oh_my_lan.Device.Publish.{is_method}

-- The device was read before; another request may have come in between.
unfoldable pub kick : String → Device → String → Handler
kick actor dev id = do
  on_error internal_error (remove_device id)
  on_error internal_error (add_device dev.id)
  on_error internal_error (audit actor "device.kick" id [])
  pure (respond 204 no_body)

-- `SSHAcct.Lock`, whose error leaves an entry in the audit log; its text is not modelled.
unfoldable pub lock_failed :
    String → String → Result Fault (Unit {0}) → Exec Server Fault (Unit {0})
lock_failed actor id (ok _) = pure tt
lock_failed actor id (err f) = audit actor "device.revoke" id (("ssh_lock_err", Value.text "") ∷ [])

unfoldable pub lock_account : String → String → Exec Server Fault (Unit {0})
lock_account actor id = do
  managed ← gets (λ w. w.env.ssh_accounts)
  if managed
      then (do locked ← attempt {E = Fault} (outside of_command); lock_failed actor id locked)
      else pure tt

unfoldable pub revoke : String → String → Handler
unfolding lock_account
revoke actor id = do
  now ← gets (λ w. w.now)
  attempt {E = Fault} (on_store (mark_device_ssh_locked id now))
  on_error internal_error (on_store (delete_device id))
  on_error internal_error (remove_device id)
  on_error internal_error (lock_account actor id)
  on_error internal_error (audit actor "device.revoke" id [])
  pure (respond 204 no_body)

-- what the handler does after it has checked the action
unfoldable pub device_action : String → Method → String → String → Handler
unfolding kick revoke
device_action actor method id action = do
  refuse_if (not (is_method method Method.post)) (write_error 405 "仅支持 POST")
  refuse_if (id == "") (write_error 400 "缺少 device id")
  dev ← on_error (missing "device 不存在") (on_store (get_device_by_id id))
  if action == "kick" then kick actor dev id else revoke actor id

abbrev pub known_action : String → Bool
known_action action = action == "revoke" || action == "kick"

unfoldable pub device_route : String → Method → String × Option String → Handler
device_route actor method (id, none) = raise (write_error 404 "未知 admin device 路径")
device_route actor method (id, some action) =
    if known_action action
    then device_action actor method id action
    else raise (write_error 404 "未知 admin device 动作: ")

unfoldable pub handle_admin_device_item : String → Method → String → Handler
unfolding cut
handle_admin_device_item actor method rest = device_route actor method (cut b'/' rest)
