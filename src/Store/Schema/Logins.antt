-- ===== src/Store/Schema/Logins.antt =====
-- The constraints under the insertion, update and deletion of sessions.
use oh_my_lan.Prelude.{
  ℕ, ◌≡◌, refl, true, false, Bool, List, ◌∷◌, exists, delete, update, All-select, All-update,
  NoClash-select, NoClash-update,
}
use oh_my_lan.Store.{Session, Store}
use oh_my_lan.Store.Logins.{session_clash, session_used, user_is}
use oh_my_lan.Store.Schema.{IsWellFormed, AreLogins}

-- The tables of users and sessions with other constraints of their own.
pub with_logins :
    (s : Store) (es : List Session)
    → AreLogins s.users es s.admin_tokens
    → IsWellFormed s
    → IsWellFormed (record s { sessions = es })
with_logins s es l h = record {
  device_keys = h.device_keys;
  service_keys = h.service_keys;
  forward_keys = h.forward_keys;
  token_keys = h.token_keys;
  protocols = h.protocols;
  service_devices = h.service_devices;
  forward_owners = h.forward_owners;
  forward_services = h.forward_services;
  token_devices = h.token_devices;
  alert_devices = h.alert_devices;
  alert_keys = h.alert_keys;
  audit_keys = h.audit_keys;
  logins = l;
}

pub add_session :
    (e : Session) (s : Store)
    → exists (session_clash e) s.sessions ≡ false
    → exists (user_is e.user_id) s.users ≡ true
    → IsWellFormed s
    → IsWellFormed (record s { sessions = e ∷ s.sessions })
add_session e s fresh user h =
    with_logins s (e ∷ s.sessions)
      (record {
        user_keys = h.logins.user_keys;
        session_keys = (fresh, h.logins.session_keys);
        session_users = (user, h.logins.session_users);
        admin_token_keys = h.logins.admin_token_keys;
      })
      h

pub drop_sessions :
    (p : Session → Bool) (s : Store)
    → IsWellFormed s
    → IsWellFormed (record s { sessions = delete p s.sessions })
drop_sessions p s h =
    with_logins s (delete p s.sessions)
      (record {
        user_keys = h.logins.user_keys;
        session_keys = NoClash-select session_clash _ s.sessions h.logins.session_keys;
        session_users = All-select _ _ s.sessions h.logins.session_users;
        admin_token_keys = h.logins.admin_token_keys;
      })
      h

pub use_sessions :
    (p : Session → Bool) (now : ℕ) (s : Store)
    → IsWellFormed s
    → IsWellFormed (record s { sessions = update p (session_used now) s.sessions })
use_sessions p now s h =
    with_logins s (update p (session_used now) s.sessions)
      (record {
        user_keys = h.logins.user_keys;
        session_keys =
            NoClash-update session_clash p (session_used now) s.sessions (λ e f. refl) (λ e f. refl)
              h.logins.session_keys;
        session_users =
            All-update (λ e. exists (user_is e.user_id) s.users ≡ true) p (session_used now)
              s.sessions (λ e u. u) h.logins.session_users;
        admin_token_keys = h.logins.admin_token_keys;
      })
      h
