-- ===== src/Auth/Login.antt =====
-- `HandleLogin`, `HandleLogout` and `HandleMe` of internal/server/auth/auth.go.
use Prim.Native.String.{◌++◌}
use oh_my_lan.Prelude.{
  ℕ, ◌+◌, ◌*◌, String, Bool, true, false, ◌||◌, Option, none, [], ◌==◌, if◌then◌else◌,
}
use oh_my_lan.Exec.{
  Result, ok, err, Exec, pure, raise, gets, modify, refuse_if, on_error, attempt, ◌>>=◌, ◌>>◌,
}
use oh_my_lan.Time.{hour}
use oh_my_lan.Api.RateLimit.{allow, record_failure}
use oh_my_lan.Store.{AdminUser, Error}
use oh_my_lan.Store.Logins.{
  get_admin_user_by_username, get_admin_user_by_id, create_session, delete_session_by_hash,
}
use oh_my_lan.Server.{Server, Fault, on_store, random_text, audit}
use oh_my_lan.Http.{
  Handler, Response, respond, write_error, internal_error, decoded, no_body, login_dto, me_dto,
}
use oh_my_lan.Auth.{extract_admin_token}

pub record LoginRequest : Type 0 where
  pub username : String
  pub password : String

-- `SessionTTL`
abbrev pub session_ttl : ℕ
session_ttl = 7 * (24 * hour)

abbrev pub too_many : Response
too_many = write_error 429 "登录尝试过于频繁，请稍后再试"

abbrev pub wrong_login : Response
wrong_login = write_error 401 "用户名或密码错误"

-- A refused address leaves an entry in the audit log.
unfoldable pub rate_limited : String → Bool → Exec Server Response (Unit {0})
rate_limited ip true = pure tt
rate_limited ip false = do
  on_error internal_error (audit ("ip:" ++ ip) "auth.rate_limited" "" [])
  raise too_many

unfoldable pub check_rate : String → Exec Server Response (Unit {0})
unfolding allow
check_rate ip = do
  (allowed, failures) ← gets (λ w. allow ip w.now w.failures)
  modify (λ w. record w { failures = failures })
  rate_limited ip allowed

-- `RecordFailure`, then the response
unfoldable pub failed_login : {A : Type 0} → String → Exec Server Response A
unfolding record_failure
failed_login ip = do
  modify (λ w. record w { failures = record_failure ip w.now w.failures })
  raise wrong_login

-- An unknown user is a failure as a wrong password is.
unfoldable pub known_user : String → Result Fault AdminUser → Exec Server Response AdminUser
known_user ip (ok u) = pure u
known_user ip (err (Fault.of_store Error.not_found)) = failed_login ip
known_user ip (err f) = raise (internal_error f)

unfoldable pub check_password : String → String → AdminUser → Exec Server Response (Unit {0})
check_password ip password u = do
  right ← gets (λ w. w.env.passwords_match password u.password_hash)
  if right then pure tt else failed_login ip

unfoldable pub open_session : AdminUser → Handler
open_session u = do
  raw ← on_error internal_error random_text
  id ← on_error internal_error random_text
  now ← gets (λ w. w.now)
  hash ← gets (λ w. w.env.hash ("sess_" ++ raw))
  on_error internal_error (
      on_store (
        create_session (record {
          id = id;
          user_id = u.id;
          token_hash = hash;
          created_at = now;
          expires_at = now + session_ttl;
          last_used_at = none;
        })))
  on_error internal_error (audit ("user:" ++ u.username) "auth.login" u.id [])
  pure (
      respond 200 (
        login_dto (record {
          session_token = "sess_" ++ raw;
          user_id = u.id;
          username = u.username;
          created_at = u.created_at;
          expires_at = now + session_ttl;
        })))

unfoldable pub handle_login : String → Option LoginRequest → Handler
unfolding check_rate check_password open_session
handle_login ip body = do
  check_rate ip
  req ← decoded body
  refuse_if (req.username == "" || req.password == "") (write_error 400 "用户名和密码必填")
  row ← attempt (on_store (get_admin_user_by_username req.username))
  user ← known_user ip row
  check_password ip req.password user
  open_session user

-- The session that the token opened goes; whether there was one is not told.
unfoldable pub drop_session : String → Exec Server Fault (Unit {0})
drop_session raw = if raw == "" then pure tt else do
  hash ← gets (λ w. w.env.hash raw)
  attempt {E = Fault} (on_store (delete_session_by_hash hash))
  pure tt

-- The middleware has put the actor into the request.
unfoldable pub handle_logout : String → String → String → Handler
unfolding drop_session extract_admin_token
handle_logout actor header cookie = do
  on_error internal_error (drop_session (extract_admin_token header cookie))
  on_error internal_error (audit actor "auth.logout" "" [])
  pure (respond 204 no_body)

-- An admin token has no user.
unfoldable pub handle_me : String → Handler
handle_me uid = if uid == "" then pure (respond 200 (me_dto "" "(admin_token)" 0)) else do
  u ← on_error internal_error (on_store (get_admin_user_by_id uid))
  pure (respond 200 (me_dto u.id u.username u.created_at))
