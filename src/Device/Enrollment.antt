-- ===== src/Device/Enrollment.antt =====
-- `HandleIssueToken` and `HandleEnrollDevice` of internal/server/device/device.go.
use Prim.Native.String.{◌++◌}
use oh_my_lan.Prelude.{ℕ, zero, suc, String, Option, [], ◌∷◌, ℤ, if◌then◌else◌}
use oh_my_lan.Exec.{Result, ok, err, Exec, pure, raise, gets, on_error, attempt, ◌>>=◌, ◌>>◌}
use oh_my_lan.Time.{seconds}
use oh_my_lan.Text.{trim_space}
use oh_my_lan.Api.Address.{KeyError, validate_pubkey}
use oh_my_lan.Store.{Value}
use oh_my_lan.Store.Devices.{get_device_by_id, delete_device, set_device_ssh}
use oh_my_lan.Server.{
  Server, Fault, of_command, on_store, outside, add_device, remove_device, audit,
}
use oh_my_lan.Enroll.{
  EnrollError, token_invalid, token_expired, device_exists, empty_name, other, issue_token,
  enroll_device,
}
use oh_my_lan.Http.{
  Handler, Response, respond, write_error, internal_error, decoded, failure, key_failure,
  token_issued, device_enrolled,
}

-- An absent body (`ContentLength` not positive) is a request with the zero lifetime.
unfoldable pub handle_issue_token : Option ℤ → Handler
unfolding seconds
handle_issue_token body = do
  ttl ← decoded body
  issued ← on_error internal_error (issue_token (seconds ttl))
  pure (respond 201 (token_issued issued.id issued.token issued.expires_at))

pub record EnrollDeviceRequest : Type 0 where
  pub token : String
  pub device_name : String
  pub ssh_pubkey : String

abbrev pub enroll_response : EnrollError → Response
enroll_response token_invalid = write_error 401 "enrollment token 无效或已被使用"
enroll_response token_expired = write_error 401 "enrollment token 已过期"
enroll_response device_exists = write_error 409 "device name 已存在"
enroll_response empty_name = write_error 400 "device name 不能为空"
enroll_response (other f) = respond 400 (failure f)

unfoldable pub checked_key : Result KeyError (Unit {0}) → Exec Server Response (Unit {0})
checked_key (ok _) w = (ok tt, w)
checked_key (err e) w = (err (respond 400 (key_failure e)), w)

abbrev pub take_chars : ℕ → String → String
take_chars zero s = String.[]
take_chars (suc n) String.[] = String.[]
take_chars (suc n) (String.◌∷◌ c s) = String.◌∷◌ c (take_chars n s)

-- `sshacct.Manager.UsernameFor`. An id is lower-case hex, which `strings.ToLower` leaves alone.
unfoldable pub username_for : String → String
username_for id = "oml-" ++ take_chars 8 id

-- `SSHAcct.Provision`, whose commands run outside: the name of the account, or an error
unfoldable pub provision : String → Exec Server Fault String
provision id = do outside of_command; pure (username_for id)

unfoldable pub provisioned : String → Result Fault String → Exec Server Response String
provisioned id (ok name) = pure name
provisioned id (err f) = do
  on_error internal_error (remove_device id)
  attempt {E = Fault} (on_store (delete_device id))
  raise (respond 500 (failure f))

-- The account of the device, if accounts are managed. An error takes the device back.
unfoldable pub ssh_account : String → Exec Server Response String
ssh_account id = do
  managed ← gets (λ w. w.env.ssh_accounts)
  if managed then (do name ← attempt {E = Fault} (provision id); provisioned id name) else pure ""

unfoldable pub store_ssh :
    {A : Type 0} → String → String → String → Result Fault A → Exec Server Response (Unit {0})
store_ssh id key name (ok _) = do
  attempt {E = Fault} (on_store (set_device_ssh id key name))
  pure tt
store_ssh id key name (err f) = pure tt

unfoldable pub handle_enroll_device : Option EnrollDeviceRequest → Handler
unfolding ssh_account provision
handle_enroll_device body = do
  req ← decoded body
  checked_key (validate_pubkey req.ssh_pubkey)
  dev ← on_error enroll_response (enroll_device req.token (trim_space req.device_name))
  on_error internal_error (add_device dev.device_id)
  name ← ssh_account dev.device_id
  row ← attempt {E = Fault} (on_store (get_device_by_id dev.device_id))
  store_ssh dev.device_id req.ssh_pubkey name row
  on_error internal_error (
      audit "system" "device.enroll" dev.device_id
        (("device_name", Value.text dev.device_name) ∷ ("ssh_username", Value.text name) ∷ []))
  env ← gets (λ w. w.env)
  pure (
      respond 201 (
        device_enrolled (record {
          device_id = dev.device_id;
          device_name = dev.device_name;
          tunnel_secret = dev.tunnel_secret;
          server_fingerprint = env.fingerprint;
          chisel_addr = env.chisel_addr;
          ssh_username = name;
          ssh_host = env.ssh_host;
          ssh_port = env.ssh_port;
        })))
