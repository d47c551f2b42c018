-- ===== src/Device/Keeps.antt =====
-- The requests of the devices keep what the store's operations keep.
use oh_my_lan.Prelude.{String, Bool, Option, ℤ}
use oh_my_lan.Exec.{Result, ok, err}
use oh_my_lan.Exec.Keeps.{Keeps, Keeps-pure}
use oh_my_lan.Store.{Store, Device, Service, Forward}
use oh_my_lan.Store.Keeps.{StoreKeeps}
use oh_my_lan.Server.{Server, Fault}
use oh_my_lan.Server.Keeps.{InStore}
use oh_my_lan.Http.{Method}
use oh_my_lan.Http.Keeps.{request_rules}
use oh_my_lan.Api.Address.{AddressError, KeyError}
use oh_my_lan.Device.Enrollment.{
  handle_issue_token, handle_enroll_device, EnrollDeviceRequest, checked_key, provision,
  provisioned, ssh_account, store_ssh,
}
use oh_my_lan.Device.Publish.{
  AddServiceRequest, normalized, handle_add_service, handle_list_services, remove_service,
  switch_service, service_action, handle_service_item, handle_list_all_services, handle_discover,
}
use oh_my_lan.Device.Consume.{
  AddForwardRequest, handle_bootstrap, handle_add_forward, handle_list_forwards, write_forward_dto,
  remove_forward, switch_forward, forward_action, handle_forward_item,
}

module _ {P : Server → Type 0} where
  Keeps-checked_key : (r : Result KeyError (Unit {0})) → Keeps P (checked_key r)
  unfolding checked_key
  Keeps-checked_key (ok _) = record { run = λ w h. h }
  Keeps-checked_key (err e) = record { run = λ w h. h }

  pub Keeps-normalized : (r : Result AddressError String) → Keeps P (normalized r)
  unfolding normalized
  Keeps-normalized (ok s) = record { run = λ w h. h }
  Keeps-normalized (err e) = record { run = λ w h. h }

module _ {P : Store → Type 0} (k : StoreKeeps P) where
  Keeps-provisioned : (id : String) (r : Result Fault String) → Keeps (InStore P) (provisioned id r)
  unfolding provisioned
  Keeps-provisioned id (ok name) = Keeps-pure name
  Keeps-provisioned id (err f) = search (request_rules, k.at_delete_device) depth 20

  Keeps-store_ssh :
      {A : Type 0} (id key name : String) (r : Result Fault A)
      → Keeps (InStore P) (store_ssh id key name r)
  unfolding store_ssh
  Keeps-store_ssh id key name (ok _) = search (request_rules, k.at_ssh) depth 20
  Keeps-store_ssh id key name (err f) = Keeps-pure tt

  Keeps-provision : (id : String) → Keeps (InStore P) (provision id)
  unfolding provision
  Keeps-provision id = search request_rules depth 20

  Keeps-ssh_account : (id : String) → Keeps (InStore P) (ssh_account id)
  unfolding ssh_account
  Keeps-ssh_account id = search (request_rules, Keeps-provision, Keeps-provisioned) depth 20

  pub Keeps-issue : (body : Option ℤ) → Keeps (InStore P) (handle_issue_token body)
  unfolding handle_issue_token
  Keeps-issue body = search request_rules depth 20

  pub Keeps-enroll :
      (body : Option EnrollDeviceRequest) → Keeps (InStore P) (handle_enroll_device body)
  unfolding handle_enroll_device
  Keeps-enroll body =
      search (request_rules, Keeps-checked_key, Keeps-ssh_account, Keeps-store_ssh) depth 30

  pub Keeps-add_service :
      (dev : Device) (body : Option AddServiceRequest)
      → Keeps (InStore P) (handle_add_service dev body)
  unfolding handle_add_service
  Keeps-add_service dev body =
      search (request_rules, Keeps-normalized, k.at_create_service) depth 30

  pub Keeps-list_services : (dev : Device) → Keeps (InStore P) (handle_list_services dev)
  unfolding handle_list_services
  Keeps-list_services dev = search request_rules depth 20

  Keeps-remove_service : (actor id : String) → Keeps (InStore P) (remove_service actor id)
  unfolding remove_service
  Keeps-remove_service actor id = search (request_rules, k.at_delete_service) depth 20

  Keeps-switch_service :
      (actor : String) (v : Service) (id : String) (b : Bool)
      → Keeps (InStore P) (switch_service actor v id b)
  unfolding switch_service
  Keeps-switch_service actor v id b = search (request_rules, k.at_enable_service) depth 20

  pub Keeps-service_action :
      (actor : String) (v : Service) (id action : String) (method : Method)
      → Keeps (InStore P) (service_action actor v id action method)
  unfolding service_action
  Keeps-service_action actor v id action method =
      search (request_rules, Keeps-remove_service, Keeps-switch_service) depth 20

  pub Keeps-service_item :
      (dev : Device) (method : Method) (rest : String)
      → Keeps (InStore P) (handle_service_item dev method rest)
  unfolding handle_service_item
  Keeps-service_item dev method rest = search (request_rules, Keeps-service_action) depth 20

  pub Keeps-list_all_services : Keeps (InStore P) handle_list_all_services
  unfolding handle_list_all_services
  Keeps-list_all_services = search request_rules depth 20

  pub Keeps-discover : (dev : Device) → Keeps (InStore P) (handle_discover dev)
  unfolding handle_discover
  Keeps-discover dev = search request_rules depth 20

  pub Keeps-bootstrap : (dev : Device) → Keeps (InStore P) (handle_bootstrap dev)
  unfolding handle_bootstrap
  Keeps-bootstrap dev = search (request_rules, k.at_status) depth 20

  pub Keeps-add_forward :
      (dev : Device) (body : Option AddForwardRequest)
      → Keeps (InStore P) (handle_add_forward dev body)
  unfolding handle_add_forward
  Keeps-add_forward dev body = search (request_rules, k.at_create_forward) depth 30

  pub Keeps-list_forwards : (dev : Device) → Keeps (InStore P) (handle_list_forwards dev)
  unfolding handle_list_forwards
  Keeps-list_forwards dev = search request_rules depth 20

  Keeps-write_forward_dto : (f : Forward) → Keeps (InStore P) (write_forward_dto f)
  unfolding write_forward_dto
  Keeps-write_forward_dto f = search request_rules depth 20

  Keeps-remove_forward : (actor id : String) → Keeps (InStore P) (remove_forward actor id)
  unfolding remove_forward
  Keeps-remove_forward actor id = search (request_rules, k.at_delete_forward) depth 20

  Keeps-switch_forward :
      (actor : String) (f : Forward) (id : String) (b : Bool)
      → Keeps (InStore P) (switch_forward actor f id b)
  unfolding switch_forward
  Keeps-switch_forward actor f id b =
      search (request_rules, k.at_enable_forward, Keeps-write_forward_dto) depth 20

  pub Keeps-forward_action :
      (actor : String) (f : Forward) (id action : String) (method : Method)
      → Keeps (InStore P) (forward_action actor f id action method)
  unfolding forward_action
  Keeps-forward_action actor f id action method =
      search (request_rules, Keeps-remove_forward, Keeps-switch_forward) depth 20

  pub Keeps-forward_item :
      (dev : Device) (method : Method) (rest : String)
      → Keeps (InStore P) (handle_forward_item dev method rest)
  unfolding handle_forward_item
  Keeps-forward_item dev method rest = search (request_rules, Keeps-forward_action) depth 20
