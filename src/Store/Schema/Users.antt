-- ===== src/Store/Schema/Users.antt =====
-- The constraints under changes of users and of the administrators' tokens.
use oh_my_lan.Prelude.{
  ℕ, ◌≡◌, refl, NoClash, ◌∙◌, false, String, List, ◌∷◌, none, inl, inr, exists, delete, update,
  All-imp, All-select_imp, NoClash-select, NoClash-update, exists-update, exists-delete, Bool-cases,
}
use oh_my_lan.Exec.{Exec, ◌>>=◌, ◌>>◌, gets, refuse_if, modify}
use oh_my_lan.Exec.Keeps.{Keeps}
use oh_my_lan.Store.{AdminUser, Session, AdminToken, Store, Error}
use oh_my_lan.Store.Logins.{
  user_clash, user_is, username_is, session_clash, session_of, with_password, admin_token_clash,
}
use oh_my_lan.Store.Schema.{IsWellFormed, AreLogins}
use oh_my_lan.Store.Schema.Inserts.{or_right}
use oh_my_lan.Store.Schema.Deletes.{not-true}

-- The tables of users, sessions and tokens with other rows.
with_tables :
    (s : Store) (us : List AdminUser) (es : List Session) (ts : List AdminToken)
    → AreLogins us es ts
    → IsWellFormed s
    → IsWellFormed (record s { users = us; sessions = es; admin_tokens = ts })
with_tables s us es ts l h = record {
  device_keys = h.device_keys;
  service_keys = h.service_keys;
  forward_keys = h.forward_keys;
  token_keys = h.token_keys;
  protocols = h.protocols;
  service_devices = h.service_devices;
  forward_owners = h.forward_owners;
  forward_services = h.forward_services;
  token_devices = h.token_devices;
  alert_devices = h.alert_devices;
  alert_keys = h.alert_keys;
  audit_keys = h.audit_keys;
  logins = l;
}

add_user :
    (u : AdminUser) (s : Store)
    → exists (user_clash u) s.users ≡ false
    → IsWellFormed s
    → IsWellFormed (record s { users = u ∷ s.users })
add_user u s fresh h =
    with_tables s (u ∷ s.users) s.sessions s.admin_tokens
      (record {
        user_keys = (fresh, h.logins.user_keys);
        session_keys = h.logins.session_keys;
        session_users = All-imp _ _ s.sessions (λ e. or_right _ _) h.logins.session_users;
        admin_token_keys = h.logins.admin_token_keys;
      })
      h

pub change_password :
    (name hash : String) (now : ℕ) (s : Store)
    → IsWellFormed s
    → IsWellFormed (record s { users = update (username_is name) (with_password hash now) s.users })
change_password name hash now s h =
    with_tables s (update (username_is name) (with_password hash now) s.users) s.sessions
      s.admin_tokens
      (record {
        user_keys =
            NoClash-update user_clash (username_is name) (with_password hash now) s.users
              (λ u v. refl) (λ u v. refl) h.logins.user_keys;
        session_keys = h.logins.session_keys;
        session_users =
            All-imp _ _ s.sessions
              (λ e there.
                exists-update (user_is e.user_id) (username_is name) (with_password hash now)
                  s.users (λ u. refl)
                ∙ there)
              h.logins.session_users;
        admin_token_keys = h.logins.admin_token_keys;
      })
      h

pub drop_user :
    (name : String) (s : Store)
    → IsWellFormed s
    → IsWellFormed (record s {
      users = delete (username_is name) s.users;
      sessions = delete (session_of name s.users) s.sessions;
    })
drop_user name s h =
    with_tables s (delete (username_is name) s.users) (delete (session_of name s.users) s.sessions)
      s.admin_tokens
      (record {
        user_keys = NoClash-select user_clash _ s.users h.logins.user_keys;
        session_keys = NoClash-select session_clash _ s.sessions h.logins.session_keys;
        session_users =
            All-select_imp _ _ _ s.sessions
              (λ e kept there.
                exists-delete (user_is e.user_id) (username_is name) s.users there
                  (not-true _ kept))
              h.logins.session_users;
        admin_token_keys = h.logins.admin_token_keys;
      })
      h

module _ (s : Store) (h : IsWellFormed s) where
  pub with_admin_tokens :
      (ts : List AdminToken)
      → NoClash admin_token_clash ts
      → IsWellFormed (record s { admin_tokens = ts })
  with_admin_tokens ts keys =
      with_tables s s.users s.sessions ts
        (record {
          user_keys = h.logins.user_keys;
          session_keys = h.logins.session_keys;
          session_users = h.logins.session_users;
          admin_token_keys = keys;
        })
        h

unfoldable pub insert_user_row : AdminUser → Exec Store Error (Unit {0})
insert_user_row u = do
  clash ← gets (λ s. exists (user_clash u) s.users)
  refuse_if clash Error.unique
  modify (λ s. record s { users = u ∷ s.users })

pub insert_user_row-IsWellFormed : (u : AdminUser) → Keeps IsWellFormed (insert_user_row u)
unfolding insert_user_row ◌>>=◌ gets refuse_if modify
insert_user_row-IsWellFormed u = record {
  run = λ s h. elim (Bool-cases (exists (user_clash u) s.users)) [
    | inl clash ↦ rw clash h
    | inr fresh ↦ rw fresh (add_user u s fresh h)
  ];
}

unfoldable pub insert_admin_token_row : AdminToken → Exec Store Error (Unit {0})
insert_admin_token_row t = do
  clash ← gets (λ s. exists (admin_token_clash t) s.admin_tokens)
  refuse_if clash Error.unique
  modify (λ s. record s { admin_tokens = record t { last_used_at = none } ∷ s.admin_tokens })

pub insert_admin_token_row-IsWellFormed :
    (t : AdminToken) → Keeps IsWellFormed (insert_admin_token_row t)
unfolding insert_admin_token_row ◌>>=◌ gets refuse_if modify
insert_admin_token_row-IsWellFormed t = record {
  run = λ s h. elim (Bool-cases (exists (admin_token_clash t) s.admin_tokens)) [
    | inl clash ↦ rw clash h
    | inr fresh ↦ rw fresh (
        with_admin_tokens s h (record t { last_used_at = none } ∷ s.admin_tokens)
          (fresh, h.logins.admin_token_keys))
  ];
}
