-- ===== src/Auth.antt =====
-- Who a request comes from: `AuthenticateDevice`, `ExtractAdminToken` and `AuthAdminMiddleware` of
-- internal/server/api/api.go, and the logins of internal/server/auth/auth.go.
pub mod Login
pub mod Keeps
use Prim.Native.String.{◌++◌}
use oh_my_lan.Prelude.{
  String, Bool, true, false, not, ◌||◌, Option, none, some, ◌==◌, if◌then◌else◌,
}
use oh_my_lan.Exec.{
  Result, ok, err, Exec, pure, raise, gets, refuse_if, on_error, attempt, ◌>>=◌, ◌>>◌,
}
use oh_my_lan.Text.{cut, strip_prefix}
use oh_my_lan.Store.{Device, Session, AdminUser}
use oh_my_lan.Store.Devices.{get_device_by_id}
use oh_my_lan.Store.Logins.{
  get_active_session_by_hash, get_admin_user_by_id, get_admin_token_by_hash, touch_session,
}
use oh_my_lan.Server.{Server, Fault, on_store}
use oh_my_lan.Http.{Response, write_error}
use oh_my_lan.Device.Enrollment.{take_chars}

-- `ErrAuthRequired`, as both middlewares answer it
abbrev pub auth_required : Response
auth_required = write_error 401 "缺少或非法的 Authorization 头"

abbrev pub parts : String × Option String → Option (String × String)
parts (id, none) = none
parts (id, some secret) = if id == "" || secret == "" then none else some (id, secret)

abbrev pub after_bearer : Option String → Option (String × String)
after_bearer none = none
after_bearer (some token) = parts (cut b'.' token)

-- The id and the secret of a header `Bearer <id>.<secret>`.
unfoldable pub credentials : String → Option (String × String)
unfolding strip_prefix cut
credentials header = after_bearer (strip_prefix "Bearer " header)

unfoldable pub or_refuse : {A : Type 0} → Option A → Exec Server Response A
or_refuse none w = (err auth_required, w)
or_refuse (some a) w = (ok a, w)

-- `ConstantTimeEqual` is equality. A missing header is the empty one.
unfoldable pub authenticate_device : String → Exec Server Response Device
unfolding credentials
authenticate_device header = do
  (id, secret) ← or_refuse (credentials header)
  dev ← on_error (λ _. auth_required) (on_store (get_device_by_id id))
  refuse_if (not (dev.tunnel_secret == secret)) auth_required
  pure dev

abbrev pub bearer_or_cookie : String → Option String → String
bearer_or_cookie cookie none = cookie
bearer_or_cookie cookie (some token) = token

-- The header comes first, then the cookie `oml_admin`; the empty text stands for neither.
unfoldable pub extract_admin_token : String → String → String
unfolding strip_prefix
extract_admin_token header cookie = bearer_or_cookie cookie (strip_prefix "Bearer " header)

-- the actor of the audit log, and the id of the user or the empty text
pub record Actor : Type 0 where
  pub name : String
  pub user_id : String

abbrev pub user_actor : AdminUser → Actor
user_actor u = record { name = "user:" ++ u.username; user_id = u.id }

unfoldable pub by_user : Session → Result Fault AdminUser → Exec Server Fault (Option Actor)
by_user e (err f) = pure none
by_user e (ok u) = do
  now ← gets (λ w. w.now)
  attempt {E = Fault} (on_store (touch_session e.id now))
  pure (some (user_actor u))

unfoldable pub user_of : Result Fault Session → Exec Server Fault (Option Actor)
user_of (err f) = pure none
user_of (ok e) = do user ← attempt (on_store (get_admin_user_by_id e.user_id)); by_user e user

-- the session path: the actor if there is an active session and its user
unfoldable pub by_session : String → Exec Server Fault (Option Actor)
by_session hash = do
  now ← gets (λ w. w.now)
  session ← attempt (on_store (get_active_session_by_hash hash now))
  user_of session

-- the admin token path, whose actor is the head of the hash
unfoldable pub by_admin_token : String → Exec Server Response Actor
by_admin_token hash = do
  on_error (λ _. auth_required) (on_store (get_admin_token_by_hash hash))
  pure (record { name = "admin:" ++ take_chars 8 hash; user_id = "" })

unfoldable pub or_by_token : String → Option Actor → Exec Server Response Actor
or_by_token hash (some actor) = pure actor
or_by_token hash none = by_admin_token hash

unfoldable pub authenticate_admin : String → String → Exec Server Response Actor
unfolding extract_admin_token by_session by_admin_token
authenticate_admin header cookie = do
  let raw = extract_admin_token header cookie
  refuse_if (raw == "") auth_required
  hash ← gets (λ w. w.env.hash raw)
  actor ← on_error (λ _. auth_required) (by_session hash)
  or_by_token hash actor
