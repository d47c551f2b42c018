-- ===== src/Auth/Keeps.antt =====
-- Authentication and the logins keep what the store's operations keep.
use oh_my_lan.Prelude.{String, Bool, true, false, Option, none, some}
use oh_my_lan.Exec.{Result, ok, err}
use oh_my_lan.Exec.Keeps.{Keeps, Keeps-pure, Keeps-raise, Keeps-bind, Keeps-modify, Keeps-gets}
use oh_my_lan.Store.{
  Store, Session, AdminUser, not_found, unique, foreign_key, check, no_id, driver,
}
use oh_my_lan.Store.Keeps.{StoreKeeps}
use oh_my_lan.Server.{Server, Fault, of_store, of_entropy, of_chisel, of_command}
use oh_my_lan.Server.Keeps.{InStore}
use oh_my_lan.Http.Keeps.{request_rules}
use oh_my_lan.Auth.{
  Actor, or_refuse, authenticate_device, by_user, user_of, by_session, by_admin_token, or_by_token,
  authenticate_admin,
}
use oh_my_lan.Auth.Login.{
  LoginRequest, rate_limited, check_rate, failed_login, known_user, check_password, open_session,
  handle_login, drop_session, handle_logout, handle_me,
}

module _ {P : Server → Type 0} where
  Keeps-or_refuse : {A : Type 0} (o : Option A) → Keeps P (or_refuse o)
  unfolding or_refuse
  Keeps-or_refuse none = record { run = λ w h. h }
  Keeps-or_refuse (some a) = record { run = λ w h. h }

module _ {P : Store → Type 0} where
  Keeps-failed_login : {A : Type 0} (ip : String) → Keeps (InStore P) (failed_login {A = A} ip)
  unfolding failed_login
  Keeps-failed_login ip =
      Keeps-bind _ _ (Keeps-modify _ (λ w h. record { at = h.at })) (λ _. Keeps-raise _)

  Keeps-known_user :
      (ip : String) (r : Result Fault AdminUser) → Keeps (InStore P) (known_user ip r)
  unfolding known_user
  Keeps-known_user ip (ok u) = Keeps-pure u
  Keeps-known_user ip (err (of_store not_found)) = Keeps-failed_login ip
  Keeps-known_user ip (err (of_store unique)) = Keeps-raise _
  Keeps-known_user ip (err (of_store foreign_key)) = Keeps-raise _
  Keeps-known_user ip (err (of_store check)) = Keeps-raise _
  Keeps-known_user ip (err (of_store no_id)) = Keeps-raise _
  Keeps-known_user ip (err (of_store driver)) = Keeps-raise _
  Keeps-known_user ip (err of_entropy) = Keeps-raise _
  Keeps-known_user ip (err of_chisel) = Keeps-raise _
  Keeps-known_user ip (err of_command) = Keeps-raise _

  Keeps-check_password :
      (ip password : String) (u : AdminUser) → Keeps (InStore P) (check_password ip password u)
  unfolding check_password
  Keeps-check_password ip password u = search (request_rules, Keeps-failed_login) depth 20

module _ {P : Store → Type 0} (k : StoreKeeps P) where
  pub Keeps-authenticate_device : (header : String) → Keeps (InStore P) (authenticate_device header)
  unfolding authenticate_device
  Keeps-authenticate_device header = search (request_rules, Keeps-or_refuse) depth 20

  Keeps-by_user : (e : Session) (r : Result Fault AdminUser) → Keeps (InStore P) (by_user e r)
  unfolding by_user
  Keeps-by_user e (err f) = Keeps-pure _
  Keeps-by_user e (ok u) = search (request_rules, k.at_touch_session) depth 20

  Keeps-user_of : (r : Result Fault Session) → Keeps (InStore P) (user_of r)
  unfolding user_of
  Keeps-user_of (err f) = Keeps-pure _
  Keeps-user_of (ok e) = search (request_rules, Keeps-by_user) depth 20

  Keeps-by_session : (hash : String) → Keeps (InStore P) (by_session hash)
  unfolding by_session
  Keeps-by_session hash = search (request_rules, Keeps-user_of) depth 20

  Keeps-by_admin_token : (hash : String) → Keeps (InStore P) (by_admin_token hash)
  unfolding by_admin_token
  Keeps-by_admin_token hash = search request_rules depth 20

  Keeps-or_by_token : (hash : String) (o : Option Actor) → Keeps (InStore P) (or_by_token hash o)
  unfolding or_by_token
  Keeps-or_by_token hash (some actor) = Keeps-pure actor
  Keeps-or_by_token hash none = Keeps-by_admin_token hash

  pub Keeps-authenticate_admin :
      (header cookie : String) → Keeps (InStore P) (authenticate_admin header cookie)
  unfolding authenticate_admin
  Keeps-authenticate_admin header cookie =
      search (request_rules, Keeps-by_session, Keeps-or_by_token) depth 20

  Keeps-rate_limited : (ip : String) (b : Bool) → Keeps (InStore P) (rate_limited ip b)
  unfolding rate_limited
  Keeps-rate_limited ip true = Keeps-pure tt
  Keeps-rate_limited ip false = search request_rules depth 20

  Keeps-check_rate : (ip : String) → Keeps (InStore P) (check_rate ip)
  unfolding check_rate
  Keeps-check_rate ip = Keeps-bind _ _ (Keeps-gets _) λ r.
      Keeps-bind _ _ (Keeps-modify _ (λ w h. record { at = h.at })) (λ _. Keeps-rate_limited ip r.0)

  Keeps-open_session : (u : AdminUser) → Keeps (InStore P) (open_session u)
  unfolding open_session
  Keeps-open_session u = search (request_rules, k.at_create_session) depth 30

  pub Keeps-login :
      (ip : String) (body : Option LoginRequest) → Keeps (InStore P) (handle_login ip body)
  unfolding handle_login
  Keeps-login ip body =
      search
        (
          request_rules, Keeps-check_rate, Keeps-known_user, Keeps-check_password,
          Keeps-open_session,
        )
        depth 30

  Keeps-drop_session : (raw : String) → Keeps (InStore P) (drop_session raw)
  unfolding drop_session
  Keeps-drop_session raw = search (request_rules, k.at_delete_session) depth 20

  pub Keeps-logout :
      (actor header cookie : String) → Keeps (InStore P) (handle_logout actor header cookie)
  unfolding handle_logout
  Keeps-logout actor header cookie = search (request_rules, Keeps-drop_session) depth 20

  pub Keeps-me : (uid : String) → Keeps (InStore P) (handle_me uid)
  unfolding handle_me
  Keeps-me uid = search request_rules depth 20
