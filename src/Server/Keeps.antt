-- ===== src/Server/Keeps.antt =====
-- A property of the tables that the store's operations keep is kept by what the requests are made of.
use oh_my_lan.Prelude.{◌≡◌, refl, String, Bool, true, false, List, [], ◌∷◌}
use oh_my_lan.Exec.Establishes.{Establishes}
use oh_my_lan.Exec.{Result, ok, err, Exec}
use oh_my_lan.Exec.Keeps.{Keeps, Keeps-bind, Keeps-modify, keeps_rules}
use oh_my_lan.Store.{Store, Error, Value, AuditEntry}
use oh_my_lan.Store.Audits.{write_audit}
use oh_my_lan.Store.Keeps.{
  StoreKeeps, at_get_device, at_list_devices, at_counted_devices, at_locked_devices, at_get_service,
  at_services, at_joined_services, at_used_ports, at_get_forward, at_joined_forwards, at_get_token,
  at_user_by_name, at_user_by_id, at_session, at_admin_token, at_audit_log, at_get_bark, at_alerted,
  at_load_counts,
}
use oh_my_lan.Server.{
  Server, Fault, on_store, after_store, draw, random_text, take_outcome, outside, add_device,
  remove_device, audit,
}

-- the property, of the tables of a server
pub record InStore (P : Store → Type 0) (w : Server) : Type 0 where
  pub at : P w.store

after_store-ok :
    {A : Type 0} (P : Store → Type 0) (w : Server) (r : Result Error A × Store) (a : A)
    → (after_store w r).0 ≡ ok a
    → ((b : A) → r.0 ≡ ok b → P r.1)
    → P (after_store w r).1.store
after_store-ok P w (ok b, s) a e h = h b refl
after_store-ok P w (err x, s) a e h = absurd (cc e)

module _ {P : Store → Type 0} where
  after_store-InStore :
      {A : Type 0} (w : Server) (r : Result Error A × Store) → P r.1 → InStore P (after_store w r).1
  after_store-InStore w (ok a, s) h = record { at = h }
  after_store-InStore w (err e, s) h = record { at = h }

  pub Establishes-on_store :
      {A : Type 0} (m : Exec Store Error A) → Establishes m P → Establishes (on_store m) (InStore P)
  unfolding on_store
  Establishes-on_store m q = record {
    run = λ w a e. record { at = after_store-ok P w (m w.store) a e (q.run w.store) };
  }

  pub Keeps-on_store :
      {A : Type 0} (m : Exec Store Error A) → Keeps P m → Keeps (InStore P) (on_store m)
  unfolding on_store
  Keeps-on_store m k = record {
    run = λ w h. after_store-InStore w (m w.store) (k.run w.store h.at);
  }

  draw-InStore : (w : Server) (l : List String) → InStore P w → InStore P (draw w l).1
  draw-InStore w [] h = h
  draw-InStore w (x ∷ rest) h = record { at = h.at }

  pub Keeps-random_text : Keeps (InStore P) random_text
  unfolding random_text
  Keeps-random_text = record { run = λ w. draw-InStore w w.entropy }

  take_outcome-InStore :
      (f : Fault) (w : Server) (l : List Bool) → InStore P w → InStore P (take_outcome f w l).1
  take_outcome-InStore f w [] h = h
  take_outcome-InStore f w (true ∷ rest) h = record { at = h.at }
  take_outcome-InStore f w (false ∷ rest) h = record { at = h.at }

  pub Keeps-outside : (f : Fault) → Keeps (InStore P) (outside f)
  unfolding outside
  Keeps-outside f = record { run = λ w. take_outcome-InStore f w w.outcomes }

  pub Keeps-remove_device : (id : String) → Keeps (InStore P) (remove_device id)
  unfolding remove_device
  Keeps-remove_device id = Keeps-modify _ (λ w h. record { at = h.at })

  pub Keeps-add_device : (id : String) → Keeps (InStore P) (add_device id)
  unfolding add_device
  Keeps-add_device id =
      Keeps-bind _ _ (Keeps-outside _) (λ _. Keeps-modify _ (λ w h. record { at = h.at }))

-- an entry of the audit log, for a property that its one operation of the store keeps
pub Keeps-audit_by :
    {P : Store → Type 0}
    → ((e : AuditEntry) → Keeps P (write_audit e))
    → (actor action target : String) (detail : List (String × Value))
    → Keeps (InStore P) (audit actor action target detail)
unfolding audit
Keeps-audit_by at_audit actor action target detail =
    search (keeps_rules, Keeps-on_store, Keeps-random_text, at_audit) depth 20

module _ {P : Store → Type 0} (k : StoreKeeps P) where
  pub Keeps-audit :
      (actor action target : String) (detail : List (String × Value))
      → Keeps (InStore P) (audit actor action target detail)
  Keeps-audit = Keeps-audit_by k.at_audit

pub ruleset server_rules = (
  keeps_rules, Keeps-on_store, Keeps-random_text, Keeps-outside, Keeps-remove_device,
  Keeps-add_device, Keeps-audit, at_get_device, at_list_devices, at_counted_devices,
  at_locked_devices, at_get_service, at_services, at_joined_services, at_used_ports, at_get_forward,
  at_joined_forwards, at_get_token, at_user_by_name, at_user_by_id, at_session, at_admin_token,
  at_audit_log, at_get_bark, at_alerted, at_load_counts,
)
