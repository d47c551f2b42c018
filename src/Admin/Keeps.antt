-- ===== src/Admin/Keeps.antt =====
-- The requests of the administrators keep what the store's operations keep.
use oh_my_lan.Prelude.{ℕ, String, Option, none, some, ℤ}
use oh_my_lan.Text.{cut}
use oh_my_lan.Exec.{Result, ok, err}
use oh_my_lan.Exec.Keeps.{Keeps, Keeps-pure, Keeps-raise, Keeps-if}
use oh_my_lan.Store.{Store, Device}
use oh_my_lan.Store.Keeps.{StoreKeeps}
use oh_my_lan.Server.{Fault}
use oh_my_lan.Server.Keeps.{InStore}
use oh_my_lan.Http.{Method}
use oh_my_lan.Http.Keeps.{request_rules}
use oh_my_lan.Device.Publish.{AddServiceRequest}
use oh_my_lan.Device.Consume.{AddForwardRequest}
use oh_my_lan.Device.Keeps.{Keeps-normalized, Keeps-service_action, Keeps-forward_action}
use oh_my_lan.Admin.Tables.{
  handle_admin_create_service, handle_admin_list_services, admin_service_item,
  handle_admin_service_item, handle_admin_create_forward, handle_admin_forward_item,
}
use oh_my_lan.Admin.Devices.{
  kick, lock_failed, lock_account, revoke, device_action, device_route, handle_admin_device_item,
  known_action,
}
use oh_my_lan.Admin.Reports.{
  handle_admin_info, handle_admin_list_devices, handle_admin_list_forwards,
  handle_admin_issue_token, handle_admin_metrics, handle_admin_list_audit, handle_admin_bark_get,
  BarkRequest, handle_admin_bark_put, push_result, handle_admin_bark_test,
}

module _ {P : Store → Type 0} (k : StoreKeeps P) where
  pub Keeps-create_service :
      (actor : String) (body : Option (String × AddServiceRequest))
      → Keeps (InStore P) (handle_admin_create_service actor body)
  unfolding handle_admin_create_service
  Keeps-create_service actor body =
      search (request_rules, Keeps-normalized, k.at_create_service) depth 30

  pub Keeps-admin_services : Keeps (InStore P) handle_admin_list_services
  unfolding handle_admin_list_services
  Keeps-admin_services = search request_rules depth 20

  Keeps-admin_item :
      (actor : String) (method : Method) (rest : String)
      → Keeps (InStore P) (admin_service_item actor method rest)
  unfolding admin_service_item
  Keeps-admin_item actor method rest = search (request_rules, Keeps-service_action) depth 20

  pub Keeps-admin_service_item :
      (actor : String) (method : Method) (rest : String)
      → Keeps (InStore P) (handle_admin_service_item actor method rest)
  unfolding handle_admin_service_item
  Keeps-admin_service_item actor method rest =
      Keeps-if _ _ _ Keeps-admin_services (Keeps-admin_item actor method rest)

  pub Keeps-create_forward :
      (actor : String) (body : Option (String × AddForwardRequest))
      → Keeps (InStore P) (handle_admin_create_forward actor body)
  unfolding handle_admin_create_forward
  Keeps-create_forward actor body = search (request_rules, k.at_create_forward) depth 30

  pub Keeps-admin_forward_item :
      (actor : String) (method : Method) (rest : String)
      → Keeps (InStore P) (handle_admin_forward_item actor method rest)
  unfolding handle_admin_forward_item
  Keeps-admin_forward_item actor method rest = search (request_rules, Keeps-forward_action) depth 20

  Keeps-kick : (actor : String) (dev : Device) (id : String) → Keeps (InStore P) (kick actor dev id)
  unfolding kick
  Keeps-kick actor dev id = search request_rules depth 20

  Keeps-lock_failed :
      (actor id : String) (r : Result Fault (Unit {0})) → Keeps (InStore P) (lock_failed actor id r)
  unfolding lock_failed
  Keeps-lock_failed actor id (ok _) = Keeps-pure tt
  Keeps-lock_failed actor id (err f) = search request_rules depth 20

  Keeps-lock_account : (actor id : String) → Keeps (InStore P) (lock_account actor id)
  unfolding lock_account
  Keeps-lock_account actor id = search (request_rules, Keeps-lock_failed) depth 20

  Keeps-revoke : (actor id : String) → Keeps (InStore P) (revoke actor id)
  unfolding revoke
  Keeps-revoke actor id =
      search (request_rules, k.at_lock, k.at_delete_device, Keeps-lock_account) depth 20

  Keeps-device_action :
      (actor : String) (method : Method) (id action : String)
      → Keeps (InStore P) (device_action actor method id action)
  unfolding device_action
  Keeps-device_action actor method id action =
      search (request_rules, Keeps-kick, Keeps-revoke) depth 20

  Keeps-device_route :
      (actor : String) (method : Method) (r : String × Option String)
      → Keeps (InStore P) (device_route actor method r)
  unfolding device_route
  Keeps-device_route actor method (id, none) = Keeps-raise _
  Keeps-device_route actor method (id, some action) =
      Keeps-if (known_action action) _ _ (Keeps-device_action actor method id action)
        (Keeps-raise _)

  pub Keeps-device_item :
      (actor : String) (method : Method) (rest : String)
      → Keeps (InStore P) (handle_admin_device_item actor method rest)
  unfolding handle_admin_device_item
  Keeps-device_item actor method rest = Keeps-device_route actor method (cut b'/' rest)

  pub Keeps-info : Keeps (InStore P) handle_admin_info
  unfolding handle_admin_info
  Keeps-info = search request_rules depth 20

  pub Keeps-devices : Keeps (InStore P) handle_admin_list_devices
  unfolding handle_admin_list_devices
  Keeps-devices = search request_rules depth 20

  pub Keeps-forwards : Keeps (InStore P) handle_admin_list_forwards
  unfolding handle_admin_list_forwards
  Keeps-forwards = search request_rules depth 20

  pub Keeps-admin_issue :
      (actor : String) (body : Option ℤ) → Keeps (InStore P) (handle_admin_issue_token actor body)
  unfolding handle_admin_issue_token
  Keeps-admin_issue actor body = search request_rules depth 20

  pub Keeps-metrics : (started : ℕ) → Keeps (InStore P) (handle_admin_metrics started)
  unfolding handle_admin_metrics
  Keeps-metrics started = search request_rules depth 20

  pub Keeps-audit_log : (limit : ℤ) → Keeps (InStore P) (handle_admin_list_audit limit)
  unfolding handle_admin_list_audit
  Keeps-audit_log limit = search request_rules depth 20

  pub Keeps-bark_get : Keeps (InStore P) handle_admin_bark_get
  unfolding handle_admin_bark_get
  Keeps-bark_get = search request_rules depth 20

  pub Keeps-bark_put :
      (parse_url : String → Option (String × String)) (actor : String) (body : Option BarkRequest)
      → Keeps (InStore P) (handle_admin_bark_put parse_url actor body)
  unfolding handle_admin_bark_put
  Keeps-bark_put parse_url actor body = search (request_rules, k.at_bark) depth 20

  Keeps-push_result :
      (actor : String) (r : Result Fault (Unit {0})) → Keeps (InStore P) (push_result actor r)
  unfolding push_result
  Keeps-push_result actor (ok _) = search request_rules depth 20
  Keeps-push_result actor (err f) = search request_rules depth 20

  pub Keeps-bark_test : (actor : String) → Keeps (InStore P) (handle_admin_bark_test actor)
  unfolding handle_admin_bark_test
  Keeps-bark_test actor = search (request_rules, Keeps-push_result) depth 20
