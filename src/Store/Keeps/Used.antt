-- ===== src/Store/Keeps/Used.antt =====
-- Tokens that have been used, under the operations that requests and the periodic tasks call.
use oh_my_lan.Prelude.{
  ℕ, ◌≡◌, refl, ap, ◌∙◌, String, Bool, true, false, ◌==◌, eq_iff, arith, none, List, [], ◌∷◌,
  exists, update, All, All-update, exists-update, exists-imp, inl, inr, Bool-cases, Option-cases,
  if◌then◌else◌,
}
use oh_my_lan.Exec.{Result, ok, err, Exec, ◌>>◌, modify}
use oh_my_lan.Exec.Keeps.{
  Keeps, Keeps-bind, Keeps-gets, Keeps-modify, Keeps-pure, Keeps-raise, Keeps-if, Keeps-refuse_if,
  branch,
}
use oh_my_lan.Store.{
  Device, Service, Forward, Session, AuditEntry, BarkSettings, EnrollmentToken, Store, Error,
  take_fault, statement,
}
use oh_my_lan.Store.Devices.{
  insert_device, update_device, update_device_status, mark_stale_devices_offline, set_device_ssh,
  mark_device_ssh_locked, cascade_device, delete_device_row, delete_device, forget_device,
}
use oh_my_lan.Store.Services.{
  insert_service, create_service, update_service, set_service_enabled, record_service_probe,
  cascade_service, delete_service_row, delete_service,
}
use oh_my_lan.Store.Forwards.{
  insert_forward, create_forward, update_forward, set_forward_enabled, delete_forward_row,
  delete_forward,
}
use oh_my_lan.Store.Tokens.{
  token_clash, insert_token, create_enrollment_token, hash_is, get_enrollment_token_by_hash,
  token_is, mark_used, refuse_used, consume_body, roll_back, consume_enrollment_token,
}
use oh_my_lan.Store.Logins.{
  insert_session, create_session, touch_session, delete_session_by_hash, delete_expired_sessions,
}
use oh_my_lan.Store.Audits.{
  insert_audit, write_audit, set_bark_settings, mark_device_alerted, clear_device_alert,
}
use oh_my_lan.Store.Keeps.{StoreKeeps, Keeps-found}
use oh_my_lan.Enroll.{is_used}

-- There is a token of this hash, and it has been used.
pub record IsUsed (hash : String) (s : Store) : Type 0 where
  pub used : All (λ t. hash_is hash t ≡ true → is_used t.used_at ≡ true) s.tokens
  pub there : exists (hash_is hash) s.tokens ≡ true

insert_service-tokens : (v : Service) (s : Store) → (insert_service v s).1.tokens ≡ s.tokens
unfolding insert_service
insert_service-tokens v s = ground arith

insert_forward-tokens : (f : Forward) (s : Store) → (insert_forward f s).1.tokens ≡ s.tokens
unfolding insert_forward
insert_forward-tokens f s = ground arith

insert_session-tokens : (e : Session) (s : Store) → (insert_session e s).1.tokens ≡ s.tokens
unfolding insert_session
insert_session-tokens e s = ground arith

module _ (hash : String) where
  -- The tokens are as they were.
  same : (s t : Store) → t.tokens ≡ s.tokens → IsUsed hash s → IsUsed hash t
  same s t e h = record { used = rw e h.used; there = rw e h.there }

  take_fault-IsUsed : (s : Store) (l : List Bool) → IsUsed hash s → IsUsed hash (take_fault s l).1
  take_fault-IsUsed s [] h = h
  take_fault-IsUsed s (true ∷ rest) h = record { used = h.used; there = h.there }
  take_fault-IsUsed s (false ∷ rest) h = record { used = h.used; there = h.there }

  at_statement : Keeps (IsUsed hash) statement
  unfolding statement
  at_statement = record { run = λ s. take_fault-IsUsed s s.faults }

  -- A row operation that leaves the tokens as they are.
  row :
      (m : Exec Store Error (Unit {0}))
      → ((s : Store) → (m s).1.tokens ≡ s.tokens)
      → Keeps (IsUsed hash) (do statement; m)
  row m e = Keeps-bind _ _ at_statement (λ _. record { run = λ s. same s (m s).1 (e s) })

  tokens-branch :
      (s : Store) (b : Bool) (x y : Result Error (Unit {0}) × Store)
      → x.1.tokens ≡ s.tokens
      → y.1.tokens ≡ s.tokens
      → (if b then x else y).1.tokens ≡ s.tokens
  tokens-branch s true x y p q = p
  tokens-branch s false x y p q = q

  at_update_device :
      (id : String) (f : Device → Device) → Keeps (IsUsed hash) (do statement; update_device id f)
  unfolding update_device
  at_update_device id f = row _ (λ s. tokens-branch s _ _ _ refl refl)

  at_insert_token : (t : EnrollmentToken) → Keeps (IsUsed hash) (insert_token t)
  unfolding insert_token
  at_insert_token t = record {
    run = λ s h. elim (Bool-cases (exists (token_clash t) s.tokens)) [
      | inl clash ↦ rw clash h
      | inr fresh ↦ rw fresh (record {
        used = (λ e. absurd (other s h fresh e), h.used);
        there = ground (arith, h.there);
      })
    ];
  }
    where
      other :
          (s : Store)
          → IsUsed hash s
          → exists (token_clash t) s.tokens ≡ false
          → hash_is hash t ≡ true
          → ⊥
      other s h fresh e = ground (
        arith,
        fresh,
        exists-imp (hash_is hash) (token_clash t) s.tokens
            (λ u there. ground (
              arith,
              eq_iff t.token_hash hash,
              eq_iff u.token_hash hash,
              eq_iff t.token_hash u.token_hash,
            ))
            h.there,
      )

  -- An update of tokens that changes no hash and makes no token unused.
  update_tokens :
      (p : EnrollmentToken → Bool) (f : EnrollmentToken → EnrollmentToken) (s t : Store)
      → t.tokens ≡ update p f s.tokens
      → ((u : EnrollmentToken) → (f u).token_hash ≡ u.token_hash)
      → ((u : EnrollmentToken) → is_used u.used_at ≡ true → is_used (f u).used_at ≡ true)
      → IsUsed hash s
      → IsUsed hash t
  update_tokens p f s t e same_hash still h = record {
    used = rw e (
        All-update (λ u. hash_is hash u ≡ true → is_used u.used_at ≡ true) p f s.tokens
          (λ u k m. still u (k (rw (← same_hash u) m))) h.used);
    there = rw e (
        exists-update (hash_is hash) p f s.tokens (λ u. ap (λ k. k == hash) (same_hash u))
        ∙ h.there);
  }

  at_status :
      (id status : String) (now : ℕ) → Keeps (IsUsed hash) (update_device_status id status now)
  unfolding update_device_status
  at_status id status now = at_update_device id _

  at_stale : (before : ℕ) → Keeps (IsUsed hash) (mark_stale_devices_offline before)
  unfolding mark_stale_devices_offline
  at_stale before = Keeps-bind _ _ at_statement λ _.
      Keeps-bind _ _ (Keeps-gets _)
        λ n. Keeps-bind _ _ (Keeps-modify _ (λ s h. same s _ refl h)) (λ _. Keeps-pure n)

  at_ssh : (id key name : String) → Keeps (IsUsed hash) (set_device_ssh id key name)
  unfolding set_device_ssh
  at_ssh id key name = at_update_device id _

  at_lock : (id : String) (now : ℕ) → Keeps (IsUsed hash) (mark_device_ssh_locked id now)
  unfolding mark_device_ssh_locked
  at_lock id now = at_update_device id _

  at_delete_device : (id : String) → Keeps (IsUsed hash) (delete_device id)
  unfolding delete_device delete_device_row cascade_device
  at_delete_device id = Keeps-bind _ _ at_statement λ _. record {
    run = λ s h.
        branch (IsUsed hash) _ _ _
          (λ _. update_tokens _ forget_device s (cascade_device id s) refl (λ u. refl) (λ u e. e) h)
          (λ _. h);
  }

  at_create_service : (v : Service) → Keeps (IsUsed hash) (create_service v)
  unfolding create_service
  at_create_service v =
      row _ (insert_service-tokens (record v { last_probe_at = none; last_probe_ok = false }))

  at_enable_service : (id : String) (b : Bool) → Keeps (IsUsed hash) (set_service_enabled id b)
  unfolding set_service_enabled update_service
  at_enable_service id b = row _ (λ s. tokens-branch s _ _ _ refl refl)

  at_probe :
      (id : String) (b : Bool) (now : ℕ) → Keeps (IsUsed hash) (record_service_probe id b now)
  unfolding record_service_probe modify
  at_probe id b now = row _ (λ s. refl)

  at_delete_service : (id : String) → Keeps (IsUsed hash) (delete_service id)
  unfolding delete_service delete_service_row cascade_service
  at_delete_service id = row _ (λ s. tokens-branch s _ _ _ refl refl)

  at_create_forward : (f : Forward) → Keeps (IsUsed hash) (create_forward f)
  unfolding create_forward
  at_create_forward f = row _ (insert_forward-tokens f)

  at_enable_forward : (id : String) (b : Bool) → Keeps (IsUsed hash) (set_forward_enabled id b)
  unfolding set_forward_enabled update_forward
  at_enable_forward id b = row _ (λ s. tokens-branch s _ _ _ refl refl)

  at_delete_forward : (id : String) → Keeps (IsUsed hash) (delete_forward id)
  unfolding delete_forward delete_forward_row
  at_delete_forward id = row _ (λ s. tokens-branch s _ _ _ refl refl)

  at_create_token : (t : EnrollmentToken) → Keeps (IsUsed hash) (create_enrollment_token t)
  unfolding create_enrollment_token
  at_create_token t = Keeps-bind _ _ at_statement (λ _. at_insert_token _)

  at_insert_device : (d : Device) → Keeps (IsUsed hash) (insert_device d)
  unfolding insert_device
  at_insert_device d = record {
    run = λ s. same s (insert_device d s).1 (tokens-branch s _ _ _ refl refl);
  }

  at_refuse_used : (t : EnrollmentToken) → Keeps (IsUsed hash) (refuse_used t)
  unfolding refuse_used
  at_refuse_used t = record {
    run = λ s h. elim (Option-cases t.used_at) [ inl e ↦ rw e h | inr used ↦ rw used.1 h ];
  }

  at_get_token : (other : String) → Keeps (IsUsed hash) (get_enrollment_token_by_hash other)
  unfolding get_enrollment_token_by_hash
  at_get_token other =
      Keeps-bind _ _ at_statement (λ _. Keeps-bind _ _ (Keeps-gets _) (λ o. Keeps-found o))

  at_consume_body :
      (other : String) (d : Device) (now : ℕ) → Keeps (IsUsed hash) (consume_body other d now)
  unfolding consume_body
  at_consume_body other d now = Keeps-bind _ _ at_statement λ _.
      Keeps-bind _ _ (at_get_token other) λ t. Keeps-bind _ _ (at_refuse_used t) λ _.
        Keeps-bind _ _ at_statement λ _. Keeps-bind _ _ (at_insert_device _) λ _.
          Keeps-bind _ _ at_statement λ _.
            Keeps-bind _ _
              (Keeps-modify _ (λ s.
                update_tokens (token_is t.id) (mark_used now d.id) s _ refl (λ u. refl)
                  (λ u e. refl)))
              (λ _. at_statement)

  roll_back-IsUsed :
      (s : Store) (r : Result Error (Unit {0}) × Store)
      → IsUsed hash s
      → IsUsed hash r.1
      → IsUsed hash (roll_back s r).1
  roll_back-IsUsed s (ok _, t) h k = k
  roll_back-IsUsed s (err e, t) h k = same s _ refl h

  at_consume :
      (other : String) (d : Device) (now : ℕ)
      → Keeps (IsUsed hash) (consume_enrollment_token other d now)
  unfolding consume_enrollment_token
  at_consume other d now = record {
    run = λ s h.
        roll_back-IsUsed s (consume_body other d now s) h ((at_consume_body other d now).run s h);
  }

  at_create_session : (e : Session) → Keeps (IsUsed hash) (create_session e)
  unfolding create_session
  at_create_session e = row _ (insert_session-tokens (record e { last_used_at = none }))

  at_touch_session : (id : String) (now : ℕ) → Keeps (IsUsed hash) (touch_session id now)
  unfolding touch_session modify
  at_touch_session id now = row _ (λ s. refl)

  at_delete_session : (other : String) → Keeps (IsUsed hash) (delete_session_by_hash other)
  unfolding delete_session_by_hash
  at_delete_session other = Keeps-bind _ _ at_statement λ _.
      Keeps-bind _ _ (Keeps-gets _)
        λ there. Keeps-bind _ _ (Keeps-refuse_if _ _) (λ _. Keeps-modify _ (λ s h. same s _ refl h))

  at_expired_sessions : (now : ℕ) → Keeps (IsUsed hash) (delete_expired_sessions now)
  unfolding delete_expired_sessions
  at_expired_sessions now = Keeps-bind _ _ at_statement λ _.
      Keeps-bind _ _ (Keeps-gets _)
        λ n. Keeps-bind _ _ (Keeps-modify _ (λ s h. same s _ refl h)) (λ _. Keeps-pure n)

  at_audit : (e : AuditEntry) → Keeps (IsUsed hash) (write_audit e)
  unfolding write_audit insert_audit
  at_audit e =
      Keeps-if _ _ _ (Keeps-raise _) (row (insert_audit e) (λ s. tokens-branch s _ _ _ refl refl))

  at_bark : (b : BarkSettings) (now : ℕ) → Keeps (IsUsed hash) (set_bark_settings b now)
  unfolding set_bark_settings modify
  at_bark b now = row _ (λ s. refl)

  at_alert : (id : String) (now : ℕ) → Keeps (IsUsed hash) (mark_device_alerted id now)
  unfolding mark_device_alerted
  at_alert id now = Keeps-bind _ _ at_statement λ _.
      Keeps-bind _ _ (Keeps-gets _)
        λ there. Keeps-bind _ _ (Keeps-refuse_if _ _) (λ _. Keeps-modify _ (λ s h. same s _ refl h))

  at_clear : (id : String) → Keeps (IsUsed hash) (clear_device_alert id)
  unfolding clear_device_alert modify
  at_clear id = row _ (λ s. refl)

  pub IsUsed-StoreKeeps : StoreKeeps (IsUsed hash)
  IsUsed-StoreKeeps = record {
    at_faults = λ s l h. same s _ refl h;
    at_statement = at_statement;
    at_status = at_status;
    at_stale = at_stale;
    at_ssh = at_ssh;
    at_lock = at_lock;
    at_delete_device = at_delete_device;
    at_create_service = at_create_service;
    at_enable_service = at_enable_service;
    at_probe = at_probe;
    at_delete_service = at_delete_service;
    at_create_forward = at_create_forward;
    at_enable_forward = at_enable_forward;
    at_delete_forward = at_delete_forward;
    at_create_token = at_create_token;
    at_consume = at_consume;
    at_create_session = at_create_session;
    at_touch_session = at_touch_session;
    at_delete_session = at_delete_session;
    at_expired_sessions = at_expired_sessions;
    at_audit = at_audit;
    at_bark = at_bark;
    at_alert = at_alert;
    at_clear = at_clear;
  }
