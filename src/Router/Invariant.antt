-- ===== src/Router/Invariant.antt =====
-- What every event in a server's life keeps.
use oh_my_lan.Prelude.{String, List, [], ◌∷◌}
use oh_my_lan.Exec.Keeps.{Keeps, Keeps-bind, Keeps-raise, Keeps-refuse_if}
use oh_my_lan.Store.{Store, Device}
use oh_my_lan.Store.Keeps.{StoreKeeps}
use oh_my_lan.Store.Schema.{IsWellFormed}
use oh_my_lan.Store.Schema.Consuming.{IsWellFormed-StoreKeeps}
use oh_my_lan.Server.{Server}
use oh_my_lan.Server.Keeps.{InStore}
use oh_my_lan.Auth.{Actor}
use oh_my_lan.Auth.Keeps as AuthKeeps
use oh_my_lan.Device.Keeps as DeviceKeeps
use oh_my_lan.Admin.Keeps as AdminKeeps
use oh_my_lan.Lifecycle.Keeps as LifecycleKeeps
use oh_my_lan.Router.{
  DeviceRoute, AdminRoute, Request, from_device, from_admin, local_token, enroll, login,
  open_other_method, Outside, device_request, admin_request, handle_request, Event, request,
  offline_tick, ssh_tick, session_tick, probe_tick, restart, meanwhile, forget_memory, happen, live,
}

module _ {P : Store → Type 0} (k : StoreKeeps P) where
  Keeps-device_request :
      (dev : Device) (route : DeviceRoute) → Keeps (InStore P) (device_request dev route)
  unfolding device_request
  Keeps-device_request dev DeviceRoute.list_services = DeviceKeeps.Keeps-list_services k dev
  Keeps-device_request dev DeviceRoute.list_all_services = DeviceKeeps.Keeps-list_all_services k
  Keeps-device_request dev DeviceRoute.list_forwards = DeviceKeeps.Keeps-list_forwards k dev
  Keeps-device_request dev DeviceRoute.bootstrap = DeviceKeeps.Keeps-bootstrap k dev
  Keeps-device_request dev DeviceRoute.discover = DeviceKeeps.Keeps-discover k dev
  Keeps-device_request dev DeviceRoute.other_method = Keeps-raise _
  Keeps-device_request dev (DeviceRoute.add_service body) = DeviceKeeps.Keeps-add_service k dev body
  Keeps-device_request dev (DeviceRoute.service_item method rest) =
      DeviceKeeps.Keeps-service_item k dev method rest
  Keeps-device_request dev (DeviceRoute.add_forward body) = DeviceKeeps.Keeps-add_forward k dev body
  Keeps-device_request dev (DeviceRoute.forward_item method rest) =
      DeviceKeeps.Keeps-forward_item k dev method rest

  Keeps-admin_request :
      (o : Outside) (header cookie : String) (a : Actor) (route : AdminRoute)
      → Keeps (InStore P) (admin_request o header cookie a route)
  unfolding admin_request
  Keeps-admin_request o header cookie a AdminRoute.info = AdminKeeps.Keeps-info k
  Keeps-admin_request o header cookie a AdminRoute.metrics = AdminKeeps.Keeps-metrics k o.started
  Keeps-admin_request o header cookie a AdminRoute.devices = AdminKeeps.Keeps-devices k
  Keeps-admin_request o header cookie a AdminRoute.services = AdminKeeps.Keeps-admin_services k
  Keeps-admin_request o header cookie a AdminRoute.forwards = AdminKeeps.Keeps-forwards k
  Keeps-admin_request o header cookie a AdminRoute.bark = AdminKeeps.Keeps-bark_get k
  Keeps-admin_request o header cookie a AdminRoute.bark_test = AdminKeeps.Keeps-bark_test k a.name
  Keeps-admin_request o header cookie a AdminRoute.logout =
      AuthKeeps.Keeps-logout k a.name header cookie
  Keeps-admin_request o header cookie a AdminRoute.me = AuthKeeps.Keeps-me k a.user_id
  Keeps-admin_request o header cookie a AdminRoute.other_method = Keeps-raise _
  Keeps-admin_request o header cookie a (AdminRoute.audit_log limit) =
      AdminKeeps.Keeps-audit_log k limit
  Keeps-admin_request o header cookie a (AdminRoute.device_item method rest) =
      AdminKeeps.Keeps-device_item k a.name method rest
  Keeps-admin_request o header cookie a (AdminRoute.create_service body) =
      AdminKeeps.Keeps-create_service k a.name body
  Keeps-admin_request o header cookie a (AdminRoute.service_item method rest) =
      AdminKeeps.Keeps-admin_service_item k a.name method rest
  Keeps-admin_request o header cookie a (AdminRoute.create_forward body) =
      AdminKeeps.Keeps-create_forward k a.name body
  Keeps-admin_request o header cookie a (AdminRoute.forward_item method rest) =
      AdminKeeps.Keeps-admin_forward_item k a.name method rest
  Keeps-admin_request o header cookie a (AdminRoute.issue_token body) =
      AdminKeeps.Keeps-admin_issue k a.name body
  Keeps-admin_request o header cookie a (AdminRoute.set_bark body) =
      AdminKeeps.Keeps-bark_put k o.parse_url a.name body

  pub Keeps-handle_request : (o : Outside) (r : Request) → Keeps (InStore P) (handle_request o r)
  unfolding handle_request
  Keeps-handle_request o (from_device header route) =
      Keeps-bind _ _ (AuthKeeps.Keeps-authenticate_device k header)
        (λ dev. Keeps-device_request dev route)
  Keeps-handle_request o (from_admin header cookie route) =
      Keeps-bind _ _ (AuthKeeps.Keeps-authenticate_admin k header cookie)
        (λ a. Keeps-admin_request o header cookie a route)
  Keeps-handle_request o (local_token host body) =
      Keeps-bind _ _ (Keeps-refuse_if _ _) (λ _. DeviceKeeps.Keeps-issue k body)
  Keeps-handle_request o (enroll body) = DeviceKeeps.Keeps-enroll k body
  Keeps-handle_request o (login ip body) = AuthKeeps.Keeps-login k ip body
  Keeps-handle_request o open_other_method = Keeps-raise _

  happen-InStore : (o : Outside) (e : Event) (w : Server) → InStore P w → InStore P (happen o e w)
  unfolding happen
  happen-InStore o (request r) w h = (Keeps-handle_request o r).run w h
  happen-InStore o offline_tick w h = (LifecycleKeeps.Keeps-offline_round k).run w h
  happen-InStore o ssh_tick w h = (LifecycleKeeps.Keeps-ssh_account_round k).run w h
  happen-InStore o session_tick w h = (LifecycleKeeps.Keeps-session_round k).run w h
  happen-InStore o probe_tick w h = (LifecycleKeeps.Keeps-probe_all k o.dial).run w h
  happen-InStore o restart w h =
      (LifecycleKeeps.Keeps-reload k).run (forget_memory w) (record { at = h.at })
  happen-InStore o (meanwhile now entropy faults outcomes) w h = record {
    at = k.at_faults w.store faults h.at;
  }

  -- A property of the tables that the store's operations keep is kept through a server's life.
  pub live-InStore :
      (o : Outside) (es : List Event) (w : Server) → InStore P w → InStore P (live o es w)
  unfolding live
  live-InStore o [] w h = h
  live-InStore o (e ∷ es) w h = live-InStore o es (happen o e w) (happen-InStore o e w h)

-- Whatever requests, periodic tasks, restarts and failures of the store, of the source of random
-- bytes and of the commands come, in whatever order: tables that meet the schema's constraints (no
-- two rows with the same keys, no service or forward without its device, no forward without its
-- service, no token used by or alert of a device that is gone, no session without its user) still
-- do.
pub live-IsWellFormed :
    (o : Outside) (es : List Event) (w : Server)
    → IsWellFormed w.store
    → IsWellFormed (live o es w).store
live-IsWellFormed o es w h = (live-InStore IsWellFormed-StoreKeeps o es w (record { at = h })).at
