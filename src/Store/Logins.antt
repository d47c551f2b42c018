-- ===== src/Store/Logins.antt =====
-- internal/store/admin_user.go, session.go and admin_token.go
use oh_my_lan.Prelude.{
  ℕ, String, Bool, not, ◌&&◌, ◌||◌, none, some, List, ◌∷◌, ◌==◌, exists, first, delete, update,
  count, sort_by, length, if◌then◌else◌,
}
use oh_my_lan.Exec.{ok, err, Exec, pure, gets, modify, refuse_if, ◌>>=◌, ◌>>◌}
use oh_my_lan.Time.{text_lt}
use oh_my_lan.Store.{
  AdminUser, Session, AdminToken, Store, Error, not_found, unique, foreign_key, statement, found,
}

-- admin_user.go

abbrev pub user_clash : AdminUser → AdminUser → Bool
user_clash u v = u.id == v.id || u.username == v.username

unfoldable pub create_admin_user : AdminUser → Exec Store Error (Unit {0})
create_admin_user u = do
  statement
  clash ← gets (λ s. exists (user_clash u) s.users)
  refuse_if clash unique
  modify (λ s. record s { users = u ∷ s.users })

abbrev pub username_is : String → AdminUser → Bool
username_is name u = u.username == name

unfoldable pub get_admin_user_by_username : String → Exec Store Error AdminUser
unfolding found
get_admin_user_by_username name = do
  statement
  row ← gets (λ s. first (username_is name) s.users)
  found row

abbrev pub user_is : String → AdminUser → Bool
user_is id u = u.id == id

unfoldable pub get_admin_user_by_id : String → Exec Store Error AdminUser
unfolding found
get_admin_user_by_id id = do statement; row ← gets (λ s. first (user_is id) s.users); found row

unfoldable pub list_admin_users : Exec Store Error (List AdminUser)
list_admin_users = do
  statement
  gets (λ s. sort_by (λ u v. text_lt u.created_at v.created_at) s.users)

abbrev pub with_password : String → ℕ → AdminUser → AdminUser
with_password hash now u = record u { password_hash = hash; updated_at = now }

unfoldable pub update_admin_user_password : String → String → ℕ → Exec Store Error (Unit {0})
update_admin_user_password name hash now = do
  statement
  there ← gets (λ s. exists (username_is name) s.users)
  refuse_if (not there) not_found
  modify (λ s. record s { users = update (username_is name) (with_password hash now) s.users })

-- the ids of the users that a DELETE takes away, for ON DELETE CASCADE from sessions
abbrev pub session_of : String → List AdminUser → Session → Bool
session_of name us e = exists (λ u. u.id == e.user_id && username_is name u) us

unfoldable pub delete_admin_user : String → Exec Store Error (Unit {0})
delete_admin_user name = do
  statement
  there ← gets (λ s. exists (username_is name) s.users)
  refuse_if (not there) not_found
  modify (λ s. record s {
    users = delete (username_is name) s.users;
    sessions = delete (session_of name s.users) s.sessions;
  })

unfoldable pub count_admin_users : Exec Store Error ℕ
count_admin_users = do statement; gets (λ s. length s.users)

-- session.go

abbrev pub session_clash : Session → Session → Bool
session_clash e f = e.id == f.id || e.token_hash == f.token_hash

unfoldable pub insert_session : Session → Exec Store Error (Unit {0})
insert_session e s =
    if exists (session_clash e) s.sessions
    then (err unique, s)
    else if exists (user_is e.user_id) s.users
    then (ok tt, record s { sessions = e ∷ s.sessions })
    else (err foreign_key, s)

unfoldable pub create_session : Session → Exec Store Error (Unit {0})
unfolding insert_session
create_session e = do statement; insert_session (record e { last_used_at = none })

abbrev pub session_hash_is : String → Session → Bool
session_hash_is hash e = e.token_hash == hash

-- WHERE token_hash = ? AND expires_at > ?
unfoldable pub get_active_session_by_hash : String → ℕ → Exec Store Error Session
unfolding found
get_active_session_by_hash hash now = do
  statement
  row ← gets (λ s. first (λ e. session_hash_is hash e && text_lt now e.expires_at) s.sessions)
  found row

abbrev pub session_used : ℕ → Session → Session
session_used t e = record e { last_used_at = some t }

unfoldable pub touch_session : String → ℕ → Exec Store Error (Unit {0})
touch_session id t = do
  statement
  modify (λ s. record s { sessions = update (λ e. e.id == id) (session_used t) s.sessions })

unfoldable pub delete_session_by_hash : String → Exec Store Error (Unit {0})
delete_session_by_hash hash = do
  statement
  there ← gets (λ s. exists (session_hash_is hash) s.sessions)
  refuse_if (not there) not_found
  modify (λ s. record s { sessions = delete (session_hash_is hash) s.sessions })

unfoldable pub delete_sessions_by_user_id : String → Exec Store Error (Unit {0})
delete_sessions_by_user_id id = do
  statement
  modify (λ s. record s { sessions = delete (λ e. e.user_id == id) s.sessions })

-- `expires_at <= now`, as texts
abbrev pub expired : ℕ → Session → Bool
expired now e = not (text_lt now e.expires_at)

unfoldable pub delete_expired_sessions : ℕ → Exec Store Error ℕ
delete_expired_sessions now = do
  statement
  n ← gets (λ s. count (expired now) s.sessions)
  modify (λ s. record s { sessions = delete (expired now) s.sessions })
  pure n

-- admin_token.go

abbrev pub admin_token_clash : AdminToken → AdminToken → Bool
admin_token_clash t u = t.id == u.id || t.token_hash == u.token_hash

unfoldable pub create_admin_token : AdminToken → Exec Store Error (Unit {0})
create_admin_token t = do
  statement
  clash ← gets (λ s. exists (admin_token_clash t) s.admin_tokens)
  refuse_if clash unique
  modify (λ s. record s { admin_tokens = record t { last_used_at = none } ∷ s.admin_tokens })

unfoldable pub get_admin_token_by_hash : String → Exec Store Error AdminToken
unfolding found
get_admin_token_by_hash hash = do
  statement
  row ← gets (λ s. first (λ t. t.token_hash == hash) s.admin_tokens)
  found row

unfoldable pub list_admin_tokens : Exec Store Error (List AdminToken)
list_admin_tokens = do
  statement
  gets (λ s. sort_by (λ t u. text_lt t.created_at u.created_at) s.admin_tokens)

unfoldable pub delete_admin_token : String → Exec Store Error (Unit {0})
delete_admin_token id = do
  statement
  there ← gets (λ s. exists (λ t. t.id == id) s.admin_tokens)
  refuse_if (not there) not_found
  modify (λ s. record s { admin_tokens = delete (λ t. t.id == id) s.admin_tokens })

abbrev pub admin_token_used : ℕ → AdminToken → AdminToken
admin_token_used now t = record t { last_used_at = some now }

unfoldable pub touch_admin_token : String → ℕ → Exec Store Error (Unit {0})
touch_admin_token id now = do
  statement
  modify (λ s. record s {
    admin_tokens = update (λ t. t.id == id) (admin_token_used now) s.admin_tokens;
  })
