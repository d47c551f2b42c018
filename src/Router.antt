-- ===== src/Router.antt =====
-- internal/server/router.go and `requireLocal` of internal/server/auth.go: what a request reaches.
-- A route is a path that has been matched; a request of another method than its route allows is
-- `other_method`. With the periodic tasks, the requests are the events of a server's life.
pub mod Invariant
pub mod SingleUse
use oh_my_lan.Prelude.{
  ℕ, String, Bool, true, false, not, ◌||◌, Option, none, some, List, [], ◌∷◌, ◌==◌, ℤ,
  if◌then◌else◌,
}
use oh_my_lan.Exec.{Result, ok, err, Exec, pure, raise, refuse_if, ◌>>=◌, ◌>>◌}
use oh_my_lan.Store.{Store, Device}
use oh_my_lan.Server.{Server, Fault}
use oh_my_lan.Http.{Method, Handler, Response, write_error}
use oh_my_lan.Auth.{Actor, authenticate_device, authenticate_admin}
use oh_my_lan.Auth.Login.{LoginRequest, handle_login, handle_logout, handle_me}
use oh_my_lan.Device.Enrollment.{EnrollDeviceRequest, handle_issue_token, handle_enroll_device}
use oh_my_lan.Device.Publish.{
  AddServiceRequest, handle_add_service, handle_list_services, handle_service_item,
  handle_list_all_services, handle_discover,
}
use oh_my_lan.Device.Consume.{
  AddForwardRequest, handle_bootstrap, handle_add_forward, handle_list_forwards,
  handle_forward_item,
}
use oh_my_lan.Admin.Tables.{
  handle_admin_create_service, handle_admin_list_services, handle_admin_service_item,
  handle_admin_create_forward, handle_admin_forward_item,
}
use oh_my_lan.Admin.Devices.{handle_admin_device_item}
use oh_my_lan.Admin.Reports.{
  BarkRequest, handle_admin_info, handle_admin_list_devices, handle_admin_list_forwards,
  handle_admin_issue_token, handle_admin_metrics, handle_admin_list_audit, handle_admin_bark_get,
  handle_admin_bark_put, handle_admin_bark_test,
}
use oh_my_lan.Lifecycle.{
  reload_chisel_users, ssh_account_round, session_round, offline_round, probe_all,
}

pub data DeviceRoute : Type 0 where
  list_services list_all_services list_forwards bootstrap discover other_method : DeviceRoute
  add_service : Option AddServiceRequest → DeviceRoute
  service_item : Method → String → DeviceRoute
  add_forward : Option AddForwardRequest → DeviceRoute
  forward_item : Method → String → DeviceRoute

pub data AdminRoute : Type 0 where
  info metrics devices services forwards bark bark_test logout me other_method : AdminRoute
  audit_log : ℤ → AdminRoute
  device_item : Method → String → AdminRoute
  create_service : Option (String × AddServiceRequest) → AdminRoute
  service_item : Method → String → AdminRoute
  create_forward : Option (String × AddForwardRequest) → AdminRoute
  forward_item : Method → String → AdminRoute
  issue_token : Option ℤ → AdminRoute
  set_bark : Option BarkRequest → AdminRoute

-- The Authorization header, the cookie and the remote host are as the middlewares read them.
pub data Request : Type 0 where
  from_device : String → DeviceRoute → Request
  from_admin : String → String → AdminRoute → Request
  local_token : String → Option ℤ → Request
  enroll : Option EnrollDeviceRequest → Request
  login : String → Option LoginRequest → Request
  open_other_method : Request

-- `net/url.Parse`, the time when the server started, and what `net.Dialer` reaches
pub record Outside : Type 0 where
  pub parse_url : String → Option (String × String)
  pub started : ℕ
  pub dial : ℕ → Bool

abbrev pub not_allowed : Response
not_allowed = write_error 405 "仅支持 GET/POST"

unfoldable pub device_request : Device → DeviceRoute → Handler
device_request dev DeviceRoute.list_services = handle_list_services dev
device_request dev DeviceRoute.list_all_services = handle_list_all_services
device_request dev DeviceRoute.list_forwards = handle_list_forwards dev
device_request dev DeviceRoute.bootstrap = handle_bootstrap dev
device_request dev DeviceRoute.discover = handle_discover dev
device_request dev DeviceRoute.other_method = raise not_allowed
device_request dev (DeviceRoute.add_service body) = handle_add_service dev body
device_request dev (DeviceRoute.service_item method rest) = handle_service_item dev method rest
device_request dev (DeviceRoute.add_forward body) = handle_add_forward dev body
device_request dev (DeviceRoute.forward_item method rest) = handle_forward_item dev method rest

unfoldable pub admin_request : Outside → String → String → Actor → AdminRoute → Handler
admin_request o header cookie a AdminRoute.info = handle_admin_info
admin_request o header cookie a AdminRoute.metrics = handle_admin_metrics o.started
admin_request o header cookie a AdminRoute.devices = handle_admin_list_devices
admin_request o header cookie a AdminRoute.services = handle_admin_list_services
admin_request o header cookie a AdminRoute.forwards = handle_admin_list_forwards
admin_request o header cookie a AdminRoute.bark = handle_admin_bark_get
admin_request o header cookie a AdminRoute.bark_test = handle_admin_bark_test a.name
admin_request o header cookie a AdminRoute.logout = handle_logout a.name header cookie
admin_request o header cookie a AdminRoute.me = handle_me a.user_id
admin_request o header cookie a AdminRoute.other_method = raise not_allowed
admin_request o header cookie a (AdminRoute.audit_log limit) = handle_admin_list_audit limit
admin_request o header cookie a (AdminRoute.device_item method rest) =
    handle_admin_device_item a.name method rest
admin_request o header cookie a (AdminRoute.create_service body) =
    handle_admin_create_service a.name body
admin_request o header cookie a (AdminRoute.service_item method rest) =
    handle_admin_service_item a.name method rest
admin_request o header cookie a (AdminRoute.create_forward body) =
    handle_admin_create_forward a.name body
admin_request o header cookie a (AdminRoute.forward_item method rest) =
    handle_admin_forward_item a.name method rest
admin_request o header cookie a (AdminRoute.issue_token body) = handle_admin_issue_token a.name body
admin_request o header cookie a (AdminRoute.set_bark body) =
    handle_admin_bark_put o.parse_url a.name body

-- `requireLocal`, with the host without its port and brackets
abbrev pub is_local : String → Bool
is_local host = host == "127.0.0.1" || host == "::1" || host == "localhost"

unfoldable pub handle_request : Outside → Request → Handler
unfolding device_request admin_request
handle_request o (from_device header route) = do
  dev ← authenticate_device header
  device_request dev route
handle_request o (from_admin header cookie route) = do
  actor ← authenticate_admin header cookie
  admin_request o header cookie actor route
handle_request o (local_token host body) = do
  refuse_if (not (is_local host)) (write_error 403 "该端点仅允许本机调用")
  handle_issue_token body
handle_request o (enroll body) = handle_enroll_device body
handle_request o (login ip body) = handle_login ip body
handle_request o open_other_method = raise not_allowed

-- What happens to a server: requests and rounds of the periodic tasks, each as a whole, restarts,
-- and between them the passage of time, with the random bytes to come and the failures to come of
-- the store and of what is outside.
pub data Event : Type 0 where
  request : Request → Event
  offline_tick ssh_tick session_tick probe_tick restart : Event
  meanwhile : ℕ → List String → List Bool → List Bool → Event

-- A restart forgets what is kept in memory.
abbrev pub forget_memory : Server → Server
forget_memory w = record w { mirror = []; failures = [] }

unfoldable pub happen : Outside → Event → Server → Server
happen o (request r) w = (handle_request o r w).1
happen o offline_tick w = (offline_round w).1
happen o ssh_tick w = (ssh_account_round w).1
happen o session_tick w = (session_round w).1
happen o probe_tick w = (probe_all o.dial w).1
happen o restart w = (reload_chisel_users (forget_memory w)).1
happen o (meanwhile now entropy faults outcomes) w = record w {
  now = now;
  entropy = entropy;
  outcomes = outcomes;
  store = record w.store { faults = faults };
}

unfoldable pub live : Outside → List Event → Server → Server
unfolding happen
live o [] w = w
live o (e ∷ es) w = live o es (happen o e w)
