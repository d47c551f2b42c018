-- ===== src/Command/Server.antt =====
-- The commands of cmd/omlserver/main.go that work on the tables, from the open store on; what they
-- print is what they return. They run beside the server, so chisel's users stay as they are.
pub mod Users
use Prim.Native.String.{◌++◌}
use oh_my_lan.Prelude.{ℕ, String, Option, none, some, List, pos}
use oh_my_lan.Exec.{Result, ok, err, Exec, pure, raise, gets, on_error, attempt, ◌>>=◌, ◌>>◌}
use oh_my_lan.Store.{Device, AdminUser, AdminToken, Error}
use oh_my_lan.Store.Devices.{get_device_by_id, delete_device, list_devices}
use oh_my_lan.Store.Logins.{
  get_admin_user_by_username, update_admin_user_password, create_admin_user, delete_admin_user,
  list_admin_users, create_admin_token, delete_admin_token, list_admin_tokens,
}
use oh_my_lan.Server.{Server, Fault, of_entropy, on_store, random_text}
use oh_my_lan.Enroll.{IssuedToken, issue_token}

unfoldable pub new_user : String → String → String → ℕ → AdminUser
new_user id username hash now = record {
  id = id;
  username = username;
  password_hash = hash;
  created_at = now;
  updated_at = now;
}

unfoldable pub insert_user : String → String → ℕ → Exec Server Fault (Unit {0})
unfolding new_user
insert_user username hash now = do
  id ← random_text
  on_store (create_admin_user (new_user id username hash now))

-- Any error of the lookup leads to the INSERT.
unfoldable pub set_user :
    String → String → ℕ → Result Fault AdminUser → Exec Server Fault (Unit {0})
unfolding insert_user
set_user username hash now (ok existing) = on_store (update_admin_user_password username hash now)
set_user username hash now (err f) = insert_user username hash now

-- `runAdminUserSet`; `hashed` is what `auth.HashPassword` returned.
unfoldable pub run_admin_user_set : String → Option String → Exec Server Fault (Unit {0})
unfolding set_user
run_admin_user_set username none = raise of_entropy
run_admin_user_set username (some hash) = do
  now ← gets (λ w. w.now)
  existing ← attempt {F = Fault} (on_store (get_admin_user_by_username username))
  set_user username hash now existing

unfoldable pub run_admin_user_list : Exec Server Fault (List AdminUser)
run_admin_user_list = on_store list_admin_users

unfoldable pub run_admin_user_delete : String → Exec Server Fault (Unit {0})
run_admin_user_delete username = on_store (delete_admin_user username)

-- `runAdminTokenCreate`: the token is shown, and only its hash is stored.
unfoldable pub run_admin_token_create : String → Exec Server Fault (String × String)
run_admin_token_create label = do
  text ← random_text
  id ← random_text
  hash ← gets (λ w. w.env.hash)
  now ← gets (λ w. w.now)
  on_store (
      create_admin_token (record {
        id = id;
        token_hash = hash ("oat_" ++ text);
        label = label;
        created_at = now;
        last_used_at = none;
      }))
  pure ("oat_" ++ text, id)

unfoldable pub run_admin_token_list : Exec Server Fault (List AdminToken)
run_admin_token_list = on_store list_admin_tokens

unfoldable pub run_admin_token_revoke : String → Exec Server Fault (Unit {0})
run_admin_token_revoke id = on_store (delete_admin_token id)

unfoldable pub run_device_list : Exec Server Fault (List Device)
run_device_list = on_store list_devices

unfoldable pub run_device_revoke : String → Exec Server Fault Device
run_device_revoke id = do
  dev ← on_store (get_device_by_id id)
  on_store (delete_device id)
  pure dev

unfoldable pub run_token_create : Exec Server Fault IssuedToken
run_token_create = issue_token (pos 0)
