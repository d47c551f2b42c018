-- ===== src/Client.antt =====
-- internal/client/api.go: the calls of the control plane. The transport is outside: it answers a
-- request with a status and a body, or fails; so is JSON, of which a call takes the texts.
pub mod State
pub mod Bearer
pub mod Saving
pub mod SshKey
use Prim.Native.String.{◌++◌}
use oh_my_lan.Prelude.{
  ℕ, String, Bool, true, false, ◌&&◌, ◌||◌, ◌==◌, Option, none, some, leb, nat_eq, if◌then◌else◌,
}
use oh_my_lan.Exec.{Exec, Result, ok, err, pure, raise, refuse_if, ◌>>=◌, ◌>>◌}
use oh_my_lan.Text.Search.{trim_right_char}
use oh_my_lan.Text.{trim_space}
use oh_my_lan.Http.{Method}

pub record ApiClient : Type 0 where
  pub base_url : String
  pub device_id : String
  pub secret : String

-- `NewAPIClient`
abbrev pub new_api_client : String → ApiClient
new_api_client server_url = record {
  base_url = trim_right_char b'/' server_url;
  device_id = "";
  secret = "";
}

-- `EnrolledAPIClient` has the device's credentials too.
abbrev pub enrolled_api_client : String → String → String → ApiClient
enrolled_api_client server_url id secret = record {
  base_url = trim_right_char b'/' server_url;
  device_id = id;
  secret = secret;
}

abbrev pub url_of : String → String → String
url_of base path = base ++ path

-- A header or a body that is not set is the empty text.
pub record HttpRequest : Type 0 where
  pub method : Method
  pub url : String
  pub authorization : String
  pub body : String

pub record HttpReply : Type 0 where
  pub status : ℕ
  pub body : String

pub data ClientError : Type 0 where
  no_credentials unreachable bad_json : ClientError
  -- `ErrUnauthorized`, and any other status from 400 on, with the text that it shows
  unauthorized : String → ClientError
  server_error : ℕ → String → ClientError

-- What is outside: the transport over its state, and the `error` of a body that is an
-- `ErrorResponse`, or the empty text.
pub record Transport : Type 1 where
  pub State : Type 0
  pub send : HttpRequest → State → Option HttpReply × State
  pub error_of : String → String

abbrev pub message_or_body : String → String → String
message_or_body message body = if message == "" then trim_space body else message

unfoldable pub bearer : ApiClient → String
bearer c = "Bearer " ++ c.device_id ++ "." ++ c.secret

abbrev pub authorization_of : Bool → ApiClient → String
authorization_of true c = bearer c
authorization_of false c = ""

module _ (T : Transport) where
  abbrev pub Call : Type 0 → Type 0
  Call A = Exec T.State ClientError A

  unfoldable pub checked_reply : HttpReply → Result ClientError String
  checked_reply r =
      if nat_eq r.status 401
      then err (unauthorized (trim_space r.body))
      else if leb 400 r.status
      then err (server_error r.status (message_or_body (T.error_of r.body) r.body))
      else ok r.body

  abbrev pub received : Option HttpReply × T.State → Result ClientError String × T.State
  received (none, s) = (err unreachable, s)
  received (some r, s) = (checked_reply r, s)

  unfoldable pub exchange : HttpRequest → Call String
  exchange req s = received (T.send req s)

  -- `do`, up to the decoding of the reply
  unfoldable pub call : ApiClient → Method → String → Bool → String → Call String
  unfolding exchange
  call c method path needs_auth body = do
    refuse_if (needs_auth && (c.device_id == "" || c.secret == "")) no_credentials
    exchange (record {
      method = method;
      url = url_of c.base_url path;
      authorization = authorization_of needs_auth c;
      body = body;
    })

  abbrev pub or_bad_json : {A : Type 0} → Option A → Call A
  or_bad_json none = raise bad_json
  or_bad_json (some a) = pure a

  -- `json.Unmarshal` into `out`; an empty reply leaves the zero value.
  unfoldable pub decode_reply : {A : Type 0} → (String → Option A) → A → String → Call A
  decode_reply decode zero_value raw =
      if raw == "" then pure zero_value else or_bad_json (decode raw)

  -- a call with a result
  unfoldable pub call_for :
      {A : Type 0} → (String → Option A) → A → ApiClient → Method → String → Bool → String → Call A
  unfolding call decode_reply
  call_for decode zero_value c method path needs_auth body = do
    raw ← call c method path needs_auth body
    decode_reply decode zero_value raw

  -- The calls of the enrolled device; the decoders are those of the DTOs.
  module _ {A : Type 0} (decode : String → Option A) (zero_value : A) (c : ApiClient) where
    -- the body is the JSON text of an `EnrollDeviceRequest`
    unfoldable pub enroll : String → Call A
    enroll body = call_for decode zero_value c Method.post "/api/devices/enroll" false body

    unfoldable pub add_service : String → Call A
    add_service body = call_for decode zero_value c Method.post "/api/services" true body

    unfoldable pub list_services : Call A
    list_services = call_for decode zero_value c Method.get "/api/services" true ""

    unfoldable pub enable_service : String → Call A
    enable_service id =
        call_for decode zero_value c Method.post ("/api/services/" ++ id ++ "/enable") true ""

    unfoldable pub disable_service : String → Call A
    disable_service id =
        call_for decode zero_value c Method.post ("/api/services/" ++ id ++ "/disable") true ""

    unfoldable pub bootstrap : Call A
    bootstrap = call_for decode zero_value c Method.get "/api/devices/me/bootstrap" true ""

    unfoldable pub discover_services : Call A
    discover_services = call_for decode zero_value c Method.get "/api/devices/me/discover" true ""

    unfoldable pub list_all_services : Call A
    list_all_services = call_for decode zero_value c Method.get "/api/services/all" true ""

    unfoldable pub add_forward : String → Call A
    add_forward body = call_for decode zero_value c Method.post "/api/forwards" true body

    unfoldable pub list_forwards : Call A
    list_forwards = call_for decode zero_value c Method.get "/api/forwards" true ""

    unfoldable pub enable_forward : String → Call A
    enable_forward id =
        call_for decode zero_value c Method.post ("/api/forwards/" ++ id ++ "/enable") true ""

    unfoldable pub disable_forward : String → Call A
    disable_forward id =
        call_for decode zero_value c Method.post ("/api/forwards/" ++ id ++ "/disable") true ""

  unfoldable pub delete_service : ApiClient → String → Call String
  delete_service c id = call c Method.delete ("/api/services/" ++ id) true ""

  unfoldable pub delete_forward : ApiClient → String → Call String
  delete_forward c id = call c Method.delete ("/api/forwards/" ++ id) true ""
