-- ===== src/Admin/Unknown.antt =====
-- chisel's users after `revoke` of internal/server/admin/admin.go: the mirror that internal/tunnel
-- keeps of them.
use oh_my_lan.Prelude.{
  ◌≡◌, refl, String, Bool, true, false, ◌==◌, arith, List, [], ◌∷◌, exists, delete,
}
use oh_my_lan.Exec.{Result, ok, err, Exec, modify}
use oh_my_lan.Exec.Keeps.{Keeps, Keeps-pure, keeps_rules}
use oh_my_lan.Exec.Establishes.{
  Establishes, Establishes-last, Establishes-first, Establishes-on_error,
}
use oh_my_lan.Store.{Store, Error, Value}
use oh_my_lan.Server.{
  Server, Fault, has_device, on_store, after_store, draw, random_text, take_outcome, outside,
  remove_device, audit,
}
use oh_my_lan.Admin.Devices.{revoke, lock_account, lock_failed}

-- chisel has no user for the device
pub record IsUnknown (id : String) (w : Server) : Type 0 where
  pub at : has_device id w ≡ false

deleted_text :
    (id : String) (l : List String) → exists (λ d. d == id) (delete (λ d. d == id) l) ≡ false
deleted_text id [] = refl
deleted_text id (d ∷ l) = ground (arith, deleted_text id l)

remove_device-IsUnknown : (id : String) → Establishes (remove_device id) (IsUnknown id)
unfolding remove_device modify
remove_device-IsUnknown id = record { run = λ w a e. record { at = deleted_text id w.mirror } }

module _ {id : String} where
  after_store-IsUnknown :
      {A : Type 0} (w : Server) (r : Result Error A × Store)
      → IsUnknown id w
      → IsUnknown id (after_store w r).1
  after_store-IsUnknown w (ok a, s) h = record { at = h.at }
  after_store-IsUnknown w (err e, s) h = record { at = h.at }

  on_store-IsUnknown : {A : Type 0} (m : Exec Store Error A) → Keeps (IsUnknown id) (on_store m)
  unfolding on_store
  on_store-IsUnknown m = record { run = λ w. after_store-IsUnknown w (m w.store) }

  draw-IsUnknown : (w : Server) (l : List String) → IsUnknown id w → IsUnknown id (draw w l).1
  draw-IsUnknown w [] h = h
  draw-IsUnknown w (x ∷ rest) h = record { at = h.at }

  random_text-IsUnknown : Keeps (IsUnknown id) random_text
  unfolding random_text
  random_text-IsUnknown = record { run = λ w. draw-IsUnknown w w.entropy }

  take_outcome-IsUnknown :
      (f : Fault) (w : Server) (l : List Bool)
      → IsUnknown id w
      → IsUnknown id (take_outcome f w l).1
  take_outcome-IsUnknown f w [] h = h
  take_outcome-IsUnknown f w (true ∷ rest) h = record { at = h.at }
  take_outcome-IsUnknown f w (false ∷ rest) h = record { at = h.at }

  outside-IsUnknown : (f : Fault) → Keeps (IsUnknown id) (outside f)
  unfolding outside
  outside-IsUnknown f = record { run = λ w. take_outcome-IsUnknown f w w.outcomes }

  audit-IsUnknown :
      (actor action target : String) (detail : List (String × Value))
      → Keeps (IsUnknown id) (audit actor action target detail)
  unfolding audit
  audit-IsUnknown actor action target detail =
      search (keeps_rules, on_store-IsUnknown, random_text-IsUnknown) depth 20

  lock_failed-IsUnknown :
      (actor target : String) (r : Result Fault (Unit {0}))
      → Keeps (IsUnknown id) (lock_failed actor target r)
  unfolding lock_failed
  lock_failed-IsUnknown actor target (ok _) = Keeps-pure tt
  lock_failed-IsUnknown actor target (err f) = audit-IsUnknown actor "device.revoke" target _

  lock_account-IsUnknown :
      (actor target : String) → Keeps (IsUnknown id) (lock_account actor target)
  unfolding lock_account
  lock_account-IsUnknown actor target =
      search (keeps_rules, lock_failed-IsUnknown, outside-IsUnknown) depth 20

-- Whatever fails on the way, once revoke has answered with success the mirror of chisel's users has
-- no entry of the device.
pub revoke-IsUnknown : (actor id : String) → Establishes (revoke actor id) (IsUnknown id)
unfolding revoke
revoke-IsUnknown actor id = Establishes-last _ _ (λ now. Establishes-last _ _ (λ _.
    Establishes-last _ _ (λ _.
      Establishes-first _ _ (Establishes-on_error _ _ (remove_device-IsUnknown id))
        (λ _. search (keeps_rules, lock_account-IsUnknown, audit-IsUnknown) depth 20))))
