-- ===== src/Daemon/Revoked.antt =====
-- A device that was revoked, from the administrator's request to the end of its daemon: the client's
-- request goes to the server's handler, whose answer ends the daemon.
use oh_my_lan.Prelude.{
  ℕ, ◌≡◌, refl, String, Bool, true, false, ◌||◌, ◌==◌, Option, some, List, [], ◌∷◌, ◌++◌, All, ◌&&◌,
  eq_refl, first, first-exists, if◌then◌else◌,
}
use oh_my_lan.Exec.{Result, ok, err, ◌>>=◌, ◌>>◌, refuse_if, gets, on_error}
use oh_my_lan.Text.{contains_char, trim_space}
use oh_my_lan.Store.{Store, Error, statement, take_fault, found}
use oh_my_lan.Store.Devices.{device_is, get_device_by_id}
use oh_my_lan.Server.{Server, on_store}
use oh_my_lan.Http.{Method, Response, BootstrapResponse}
use oh_my_lan.Device.Publish.{is_method}
use oh_my_lan.Auth.{authenticate_device, auth_required, credentials, or_refuse}
use oh_my_lan.Router.{Outside, from_device, handle_request, DeviceRoute, happen, meanwhile}
use oh_my_lan.Client.{
  ApiClient, url_of, Transport, HttpRequest, HttpReply, unauthorized, bearer, bootstrap, call_for,
  call, exchange, checked_reply, enrolled_api_client,
}
use oh_my_lan.Client.Bearer.{credentials-bearer}
use oh_my_lan.Client.State.{DeviceState}
use oh_my_lan.Admin.Devices.{revoke}
use oh_my_lan.Admin.Revoke.{IsGone, revoke-IsGone}
use oh_my_lan.Daemon.{Round, run, device_revoked}
use oh_my_lan.Daemon.Backoff.{GoesOn, run-revoked}
use oh_my_lan.Daemon.Once.{Race, run_once}

no_row : (id : String) (s : Store) → IsGone id s → (e : Error) × ((get_device_by_id id s).0 ≡ err e)
unfolding get_device_by_id statement ◌>>=◌ gets found
no_row id s gone = by_fault s.faults
  where
    by_fault :
        (l : List Bool)
        → (e : Error) × ((((λ s. take_fault s l)
                >> (gets (λ s. first (device_is id) s.devices) >>= found))
              s).0
            ≡ err e)
    by_fault [] = rw ((first-exists (device_is id) s.devices).1 gone) (Error.not_found, refl)
    by_fault (true ∷ l) = (Error.driver, refl)
    by_fault (false ∷ l) =
        rw ((first-exists (device_is id) s.devices).1 gone) (Error.not_found, refl)

-- whatever fails on the way
authenticate_device-gone :
    (header id secret : String) (w : Server)
    → credentials header ≡ some (id, secret)
    → IsGone id w.store
    → (authenticate_device header w).0 ≡ err auth_required
unfolding authenticate_device or_refuse on_error on_store ◌>>=◌
authenticate_device-gone header id secret w c gone =
    let (e, absent) = no_row id w.store gone in rw (c, absent) refl

-- The server as the transport of the bootstrap's request; `render` is the JSON text of a response.
abbrev pub reply_of : (Response → String) → Result Response Response → HttpReply
reply_of render (ok r) = record { status = r.status; body = render r }
reply_of render (err r) = record { status = r.status; body = render r }

-- the route of the bootstrap, on the server whose addresses start with `base`
abbrev pub is_bootstrap : String → HttpRequest → Bool
is_bootstrap base req =
    is_method req.method Method.get && req.url == url_of base "/api/devices/me/bootstrap"

-- What answers any other request is given.
abbrev pub bootstrap_of :
    Outside
    → String
    → (Response → String)
    → (HttpRequest → Server → Option HttpReply × Server)
    → (String → String)
    → Transport
bootstrap_of o base render elsewhere error_of = record {
  State = Server;
  send = λ req w.
      if is_bootstrap base req
      then (let (r, w') =
            handle_request o (from_device req.authorization DeviceRoute.bootstrap) w in
          (some (reply_of render r), w'))
      else elsewhere req w;
  error_of = error_of;
}

handle_request-gone :
    (o : Outside) (header id secret : String) (route : DeviceRoute) (w : Server)
    → credentials header ≡ some (id, secret)
    → IsGone id w.store
    → (handle_request o (from_device header route) w).0 ≡ err auth_required
unfolding handle_request ◌>>=◌
handle_request-gone o header id secret route w c gone =
    rw (authenticate_device-gone header id secret w c gone) refl

module _ (o : Outside) (render : Response → String)
    (elsewhere : HttpRequest → Server → Option HttpReply × Server)
    (error_of : String → String) where
  abbrev server_transport : String → Transport
  server_transport base = bootstrap_of o base render elsewhere error_of

  bootstrap-gone :
      (decode : String → Option BootstrapResponse) (zero_value : BootstrapResponse) (c : ApiClient)
      (w : Server)
      → contains_char b'.' c.device_id ≡ false
      → c.device_id == "" || c.secret == "" ≡ false
      → IsGone c.device_id w.store
      → (bootstrap (server_transport c.base_url) decode zero_value c w).0
        ≡ err (unauthorized (trim_space (render auth_required)))
  unfolding bootstrap call_for call exchange checked_reply refuse_if ◌>>=◌
  bootstrap-gone decode zero_value c w plain full gone =
      rw
        (
          full,
          eq_refl (url_of c.base_url "/api/devices/me/bootstrap"),
          handle_request-gone o (bearer c) c.device_id c.secret DeviceRoute.bootstrap w
              (credentials-bearer c plain full) gone,
        )
        refl

  -- the round of a daemon with the state `st`, whose bootstrap meets a server `w`
  abbrev pub round_at :
      (String → Option BootstrapResponse)
      → BootstrapResponse
      → DeviceState
      → Server
      → Bool
      → Race
      → Bool
      → Round
  round_at decode zero_value st w quit race done_waiting =
      let c = enrolled_api_client st.server_url st.device_id st.tunnel_secret in
      let (boot, w') = bootstrap (server_transport c.base_url) decode zero_value c w in
      record {
        done_before = false;
        outcome = run_once quit st boot race;
        done_waiting = done_waiting;
      }

  -- Once revoke has answered an administrator with success, at whatever time and with whatever
  -- failures of the store the daemon of the device next asks for its bootstrap, it ends with the
  -- error that says so, if rounds that go on came before and its id has no dot and its id and
  -- secret are not empty.
  pub run-revoke :
      (decode : String → Option BootstrapResponse) (zero_value : BootstrapResponse)
      (st : DeviceState) (actor : String) (w : Server) (answer : Response) (now : ℕ)
      (entropy : List String) (faults outcomes : List Bool) (quit done_waiting : Bool) (race : Race)
      (rounds rest : List Round)
      → (revoke actor st.device_id w).0 ≡ ok answer
      → contains_char b'.' st.device_id ≡ false
      → st.device_id == "" || st.tunnel_secret == "" ≡ false
      → All GoesOn rounds
      → (run (
          rounds
          ++ round_at decode zero_value st
              (happen o (meanwhile now entropy faults outcomes) (revoke actor st.device_id w).1)
              quit
              race
              done_waiting
            ∷ rest)).exit
        ≡ some device_revoked
  unfolding run_once happen
  run-revoke decode zero_value st actor w answer now entropy faults outcomes quit done_waiting race
        rounds rest revoked plain full before =
      let gone = (revoke-IsGone actor st.device_id).run w answer revoked in
      let c = enrolled_api_client st.server_url st.device_id st.tunnel_secret in
      let w' = happen o (meanwhile now entropy faults outcomes) (revoke actor st.device_id w).1 in
      run-revoked rounds rest _ before refl
        (rw (bootstrap-gone decode zero_value c w' plain full gone.at) refl)
