-- ===== src/Store/Schema/Consuming.antt =====
-- The constraints under the consumption of a token, and the instance for the operations that requests
-- and the periodic tasks call.
use oh_my_lan.Prelude.{
  ℕ, String, Bool, true, false, refl, eq_refl, List, [], ◌∷◌, inl, inr, exists, Bool-cases,
  Option-cases,
}
use oh_my_lan.Exec.{Result, ok, err, Exec, ◌>>=◌}
use oh_my_lan.Exec.Keeps.{Keeps, Keeps-bind, Keeps-gets, Keeps-modify}
use oh_my_lan.Store.{Device, EnrollmentToken, Store, Error, statement, take_fault}
use oh_my_lan.Store.Devices.{insert_device, device_clash}
use oh_my_lan.Store.Tokens.{
  consume_enrollment_token, consume_body, refuse_used, token_is, roll_back,
  get_enrollment_token_by_hash,
}
use oh_my_lan.Store.Keeps.{StoreKeeps, Keeps-found}
use oh_my_lan.Store.Schema.{IsWellFormed, HasDevice}
use oh_my_lan.Store.Schema.Inserts.{statement-IsWellFormed, add_device, with_faults}
use oh_my_lan.Store.Schema.Updates.{use_tokens}
use oh_my_lan.Store.Schema.Operations

-- well formed, with the device of an id
abbrev WithDevice : String → Store → Type 0
WithDevice id s = IsWellFormed s × HasDevice s id

take_fault-WithDevice :
    (id : String) (s : Store) (l : List Bool) → WithDevice id s → WithDevice id (take_fault s l).1
take_fault-WithDevice id s [] h = h
take_fault-WithDevice id s (true ∷ rest) h = (with_faults s rest h.0, h.1)
take_fault-WithDevice id s (false ∷ rest) h = (with_faults s rest h.0, h.1)

statement-WithDevice : (id : String) → Keeps (WithDevice id) statement
unfolding statement
statement-WithDevice id = record { run = λ s. take_fault-WithDevice id s s.faults }

insert_then :
    (d : Device) (rest : Exec Store Error (Unit {0}))
    → Keeps (WithDevice d.id) rest
    → Keeps IsWellFormed (insert_device d >>= λ _. rest)
unfolding insert_device ◌>>=◌
insert_then d rest k = record {
  run = λ s h. elim (Bool-cases (exists (device_clash d) s.devices)) [
    | inl clash ↦ rw clash h
    | inr fresh ↦
        let here : HasDevice (record s { devices = d ∷ s.devices }) d.id = rw (eq_refl d.id) refl in
        rw fresh (k.run (record s { devices = d ∷ s.devices }) (add_device d s fresh h, here)).0
  ];
}

Keeps-refuse_used : (t : EnrollmentToken) → Keeps IsWellFormed (refuse_used t)
unfolding refuse_used
Keeps-refuse_used t = record {
  run = λ s h. elim (Option-cases t.used_at) [ inl e ↦ rw e h | inr used ↦ rw used.1 h ];
}

get_token : (hash : String) → Keeps IsWellFormed (get_enrollment_token_by_hash hash)
unfolding get_enrollment_token_by_hash
get_token hash =
    Keeps-bind _ _ statement-IsWellFormed (λ _. Keeps-bind _ _ (Keeps-gets _) (λ o. Keeps-found o))

consume_body-IsWellFormed :
    (hash : String) (d : Device) (now : ℕ) → Keeps IsWellFormed (consume_body hash d now)
unfolding consume_body
consume_body-IsWellFormed hash d now = Keeps-bind _ _ statement-IsWellFormed λ _.
    Keeps-bind _ _ (get_token hash) λ t. Keeps-bind _ _ (Keeps-refuse_used t) λ _.
      Keeps-bind _ _ statement-IsWellFormed λ _. insert_then _ _ (
        Keeps-bind _ _ (statement-WithDevice d.id) λ _.
          Keeps-bind _ _
            (Keeps-modify _ (λ s h. (use_tokens (token_is t.id) now d.id s h.1 h.0, h.1)))
            (λ _. statement-WithDevice d.id))

roll_back-IsWellFormed :
    (s : Store) (r : Result Error (Unit {0}) × Store)
    → IsWellFormed s
    → IsWellFormed r.1
    → IsWellFormed (roll_back s r).1
roll_back-IsWellFormed s (ok _, t) h k = k
roll_back-IsWellFormed s (err e, t) h k = with_faults s t.faults h

at_consume :
    (hash : String) (d : Device) (now : ℕ)
    → Keeps IsWellFormed (consume_enrollment_token hash d now)
unfolding consume_enrollment_token
at_consume hash d now = record {
  run = λ s h.
      roll_back-IsWellFormed s (consume_body hash d now s) h
        ((consume_body-IsWellFormed hash d now).run s h);
}

-- Every operation that requests and the periodic tasks call keeps the constraints of the schema.
pub IsWellFormed-StoreKeeps : StoreKeeps IsWellFormed
IsWellFormed-StoreKeeps = record {
  at_faults = with_faults;
  at_statement = statement-IsWellFormed;
  at_status = Operations.at_status;
  at_stale = Operations.at_stale;
  at_ssh = Operations.at_ssh;
  at_lock = Operations.at_lock;
  at_delete_device = Operations.at_delete_device;
  at_create_service = Operations.at_create_service;
  at_enable_service = Operations.at_enable_service;
  at_probe = Operations.at_probe;
  at_delete_service = Operations.at_delete_service;
  at_create_forward = Operations.at_create_forward;
  at_enable_forward = Operations.at_enable_forward;
  at_delete_forward = Operations.at_delete_forward;
  at_create_token = Operations.at_create_token;
  at_consume = at_consume;
  at_create_session = Operations.at_create_session;
  at_touch_session = Operations.at_touch_session;
  at_delete_session = Operations.at_delete_session;
  at_expired_sessions = Operations.at_expired_sessions;
  at_audit = Operations.at_audit;
  at_bark = Operations.at_bark;
  at_alert = Operations.at_alert;
  at_clear = Operations.at_clear;
}
