-- ===== src/Http.antt =====
-- Requests and responses of the control plane, and the DTOs of internal/proto/dto.go and their
-- mappers in internal/server/api/api.go. A request's body comes decoded: `none` is a body that the
-- JSON decoder refuses. A response's texts are the program's; that of an error is its value.
pub mod Keeps
use oh_my_lan.Prelude.{ℕ, String, Bool, Option, none, some, List, ℤ}
use oh_my_lan.Exec.{Result, ok, err, Exec}
use oh_my_lan.Store.{Device, Service, Forward, Store, Error, AuditEntry}
use oh_my_lan.Store.Devices.{DeviceWithCounts}
use oh_my_lan.Store.Services.{ServiceListItem}
use oh_my_lan.Store.Forwards.{ForwardListItem}
use oh_my_lan.Store.Audits.{Counts}
use oh_my_lan.Api.Address.{AddressError, KeyError}
use oh_my_lan.Server.{Server, Fault, of_store}

pub data Method : Type 0 where
  get post put patch delete options : Method

pub record ServiceDto : Type 0 where
  pub id : String
  pub device_id : String
  pub name : String
  pub protocol : String
  pub local_addr : String
  pub public_port : ℕ
  pub enabled : Bool
  pub bind_local : Bool
  pub created_at : ℕ

unfoldable pub to_service_dto : Service → ServiceDto
to_service_dto v = record {
  id = v.id;
  device_id = v.device_id;
  name = v.name;
  protocol = v.protocol;
  local_addr = v.local_addr;
  public_port = v.public_port;
  enabled = v.enabled;
  bind_local = v.bind_local;
  created_at = v.created_at;
}

pub record ForwardDto : Type 0 where
  pub id : String
  pub owner_device_id : String
  pub remote_service_id : String
  pub remote_device_id : String
  pub remote_service_name : String
  pub local_port : ℕ
  pub remote_public_port : ℕ
  pub protocol : String
  pub enabled : Bool
  pub created_at : ℕ

-- The owner of the remote service is an argument that the mapper does not read.
unfoldable pub to_forward_dto : Forward → Service → ForwardDto
to_forward_dto f remote = record {
  id = f.id;
  owner_device_id = f.owner_device_id;
  remote_service_id = f.remote_service_id;
  remote_device_id = remote.device_id;
  remote_service_name = remote.name;
  local_port = f.local_port;
  remote_public_port = remote.public_port;
  protocol = remote.protocol;
  enabled = f.enabled;
  created_at = f.created_at;
}

-- `forwardItemToDTO` of internal/server/device/device.go
unfoldable pub forward_item_to_dto : ForwardListItem → ForwardDto
forward_item_to_dto it = record {
  id = it.forward.id;
  owner_device_id = it.forward.owner_device_id;
  remote_service_id = it.forward.remote_service_id;
  remote_device_id = it.remote_device_id;
  remote_service_name = it.remote_service_name;
  local_port = it.forward.local_port;
  remote_public_port = it.remote_public_port;
  protocol = it.protocol;
  enabled = it.forward.enabled;
  created_at = it.forward.created_at;
}

pub record RemoteEntry : Type 0 where
  pub service_id : String
  pub public_port : ℕ
  pub local_addr : String
  pub protocol : String
  pub bind_local : Bool

pub record LocalEntry : Type 0 where
  pub forward_id : String
  pub local_port : ℕ
  pub remote_public_port : ℕ
  pub protocol : String

pub record BootstrapResponse : Type 0 where
  pub server_fingerprint : String
  pub chisel_addr : String
  pub remotes : List RemoteEntry
  pub locals : List LocalEntry

pub record ServiceBrief : Type 0 where
  pub id : String
  pub device_id : String
  pub device_name : String
  pub name : String
  pub protocol : String
  pub public_port : ℕ
  pub enabled : Bool

pub record EnrollDeviceResponse : Type 0 where
  pub device_id : String
  pub device_name : String
  pub tunnel_secret : String
  pub server_fingerprint : String
  pub chisel_addr : String
  pub ssh_username : String
  pub ssh_host : String
  pub ssh_port : ℕ

pub record LoginResponse : Type 0 where
  pub session_token : String
  pub user_id : String
  pub username : String
  pub created_at : ℕ
  pub expires_at : ℕ

pub data Body : Type 0 where
  no_body : Body
  error : String → Body
  failure : Fault → Body
  address_failure : AddressError → Body
  key_failure : KeyError → Body
  token_issued : String → String → ℕ → Body
  device_enrolled : EnrollDeviceResponse → Body
  service_dto : ServiceDto → Body
  services_dto : List ServiceDto → Body
  forward_dto : ForwardDto → Body
  forwards_dto : List ForwardDto → Body
  bootstrap_dto : BootstrapResponse → Body
  briefs_dto : List ServiceBrief → Body
  devices_dto : List DeviceWithCounts → Body
  joined_services_dto : List ServiceListItem → Body
  joined_forwards_dto : List ForwardListItem → Body
  audit_dto : List AuditEntry → Body
  metrics_dto : Counts → ℕ → ℕ → ℕ → Body
  info_dto : String → String → ℕ → ℕ → Body
  bark_dto : Bool → String → ℕ → Body
  login_dto : LoginResponse → Body
  me_dto : String → String → ℕ → Body

pub record Response : Type 0 where
  pub status : ℕ
  pub body : Body

abbrev pub respond : ℕ → Body → Response
respond status body = record { status = status; body = body }

-- `api.WriteError`
abbrev pub write_error : ℕ → String → Response
write_error status message = respond status (error message)

-- `api.WriteError(w, http.StatusInternalServerError, err.Error())`
abbrev pub internal_error : Fault → Response
internal_error f = respond 500 (failure f)

-- A handler: an early return is an error that carries its response.
abbrev pub Handler : Type 0
Handler = Exec Server Response Response

abbrev pub response_of : Result Response Response → Response
response_of (ok r) = r
response_of (err r) = r

-- `ErrNotFound` has a response of its own, any other error is a 500.
abbrev pub missing : String → Fault → Response
missing message (of_store Error.not_found) = write_error 404 message
missing message f = internal_error f

-- A constraint of uniqueness has a response of its own.
abbrev pub conflict : String → Fault → Response
conflict message (of_store Error.unique) = write_error 409 message
conflict message f = internal_error f

-- the decoded body, or 400
unfoldable pub decoded : {A : Type 0} → Option A → Exec Server Response A
decoded none w = (err (write_error 400 "请求体非法 JSON: "), w)
decoded (some a) w = (ok a, w)
