-- ===== src/Admin/Revoke.antt =====
-- The rows of a device after `revoke` of internal/server/admin/admin.go.
use oh_my_lan.Prelude.{
  ◌≡◌, refl, String, Bool, true, false, ◌==◌, arith, List, [], ◌∷◌, exists, delete, inl, inr,
  Bool-cases,
}
use oh_my_lan.Exec.{Result, ok, err}
use oh_my_lan.Exec.Keeps.{Keeps, Keeps-pure, keeps_rules, branch}
use oh_my_lan.Exec.Establishes.{
  Establishes, Establishes-last, Establishes-first, Establishes-on_error,
}
use oh_my_lan.Store.{Store, Device, statement, take_fault, AuditEntry}
use oh_my_lan.Store.Devices.{device_is, delete_device, delete_device_row, cascade_device}
use oh_my_lan.Store.Audits.{write_audit, insert_audit}
use oh_my_lan.Server.{Fault}
use oh_my_lan.Server.Keeps.{
  InStore, Keeps-outside, Keeps-remove_device, Keeps-audit_by, Establishes-on_store,
}
use oh_my_lan.Admin.Devices.{revoke, lock_account, lock_failed}

-- no row of the device
abbrev pub IsGone : String → Store → Type 0
IsGone id s = exists (device_is id) s.devices ≡ false

exists-delete_self : (p : Device → Bool) (ds : List Device) → exists p (delete p ds) ≡ false
exists-delete_self p [] = refl
exists-delete_self p (d ∷ ds) = ground (arith, exists-delete_self p ds)

take_fault-IsGone :
    (id : String) (s : Store) (l : List Bool) → IsGone id s → IsGone id (take_fault s l).1
take_fault-IsGone id s [] h = h
take_fault-IsGone id s (true ∷ rest) h = h
take_fault-IsGone id s (false ∷ rest) h = h

statement-IsGone : (id : String) → Keeps (IsGone id) statement
unfolding statement
statement-IsGone id = record { run = λ s. take_fault-IsGone id s s.faults }

delete_device_row-IsGone : (id : String) → Establishes (delete_device_row id) (IsGone id)
unfolding delete_device_row cascade_device
delete_device_row-IsGone id = record {
  run = λ s a e. elim (Bool-cases (exists (device_is id) s.devices)) [
    | inl there ↦ rw there (exists-delete_self (device_is id) s.devices)
    | inr gone ↦ rw gone gone
  ];
}

delete_device-IsGone : (id : String) → Establishes (delete_device id) (IsGone id)
unfolding delete_device
delete_device-IsGone id = Establishes-last _ _ (λ _. delete_device_row-IsGone id)

insert_audit-IsGone : (id : String) (e : AuditEntry) → Keeps (IsGone id) (insert_audit e)
unfolding insert_audit
insert_audit-IsGone id e = record {
  run = λ s h. branch (IsGone id) (exists (λ a. a.id == e.id) s.audit_log) _ _ (λ _. h) (λ _. h);
}

write_audit-IsGone : (id : String) (e : AuditEntry) → Keeps (IsGone id) (write_audit e)
unfolding write_audit
write_audit-IsGone id e = search (keeps_rules, statement-IsGone, insert_audit-IsGone) depth 20

lock_failed-IsGone :
    (actor id : String) (r : Result Fault (Unit {0}))
    → Keeps (InStore (IsGone id)) (lock_failed actor id r)
unfolding lock_failed
lock_failed-IsGone actor id (ok _) = Keeps-pure tt
lock_failed-IsGone actor id (err f) =
    Keeps-audit_by (write_audit-IsGone id) actor "device.revoke" id _

lock_account-IsGone : (actor id : String) → Keeps (InStore (IsGone id)) (lock_account actor id)
unfolding lock_account
lock_account-IsGone actor id = search (keeps_rules, lock_failed-IsGone, Keeps-outside) depth 20

-- Whatever fails on the way, once revoke has answered with success no row of the device is left.
pub revoke-IsGone : (actor id : String) → Establishes (revoke actor id) (InStore (IsGone id))
unfolding revoke
revoke-IsGone actor id = Establishes-last _ _ (λ now. Establishes-last _ _ (λ _.
    Establishes-first _ _
      (Establishes-on_error _ _ (Establishes-on_store _ (delete_device-IsGone id)))
      (λ _.
        search
          (
            keeps_rules, Keeps-remove_device, lock_account-IsGone, Keeps-audit_by,
            write_audit-IsGone,
          )
          depth 20)))
