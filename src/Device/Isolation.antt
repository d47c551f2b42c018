-- ===== src/Device/Isolation.antt =====
-- Requests of a device for the services and forwards of another device.
use oh_my_lan.Prelude.{
  ◌≡◌, refl, String, Bool, true, false, not, ◌&&◌, ◌==◌, List, [], ◌∷◌, first, exists, Option, some,
  arith, inl, inr, Bool-cases,
}
use oh_my_lan.Exec
use oh_my_lan.Exec.{Result, ok, err, Exec, refuse_if, on_error, ◌>>=◌, ◌>>◌}
use oh_my_lan.Exec.Establishes.{recovered}
use oh_my_lan.Text.{cut}
use oh_my_lan.Store.{Store, Device, Error}
use oh_my_lan.Store.Services.{service_is, get_service}
use oh_my_lan.Store.Forwards.{forward_is, get_forward}
use oh_my_lan.Store.Reads.{SameStore, lookup, lookup-ok, Reads-lookup, Reads-on_store}
use oh_my_lan.Server.{Server, Fault, on_store, after_store}
use oh_my_lan.Http.{Method, Response, Handler}
use oh_my_lan.Device.Publish.{handle_service_item}
use oh_my_lan.Device.Consume.{handle_forward_item}

-- an error, and every table as it was
abbrev pub IsRefused : {A : Type 0} → Server → Result Response A × Server → Type 0
IsRefused w r = (x : Response) × ((r.0 ≡ err x) × SameStore w r.1)

first-exists_and :
    {A : Type 0} (p q : A → Bool) (xs : List A) (x : A)
    → exists (λ y. p y && q y) xs ≡ false
    → first p xs ≡ some x
    → q x ≡ false
first-exists_and p q [] x h e = absurd (cc e)
first-exists_and p q (y ∷ ys) x h e = elim (Bool-cases (p y)) [
  | inl passes ↦ let same : y ≡ x = cc (e, passes) in rw (← same) (ground (arith, h, passes))
  | inr fails ↦ first-exists_and p q ys x (ground (arith, h)) (ground (arith, e, fails))
]

module _ {A : Type 0} (g : Store → Option A) (owned : A → Bool) (f : Fault → Response) where
  stored_ok :
      (w : Server) (r : Result Error A × Store) (a : A) → (after_store w r).0 ≡ ok a → r.0 ≡ ok a
  stored_ok w (ok b, s) a e = cc e
  stored_ok w (err x, s) a e = absurd (cc e)

  after_lookup :
      (w w' : Server) (r : Result Response A) (e : Response) (rest : A → Handler)
      → SameStore w w'
      → ((a : A) → r ≡ ok a → owned a ≡ false)
      → IsRefused w (Exec.continue r (λ a. refuse_if (not (owned a)) e >>= λ _. rest a) w')
  unfolding refuse_if ◌>>=◌
  after_lookup w w' (ok a) e rest same none_owned = rw (none_owned a refl) (e, (refl, same))
  after_lookup w w' (err x) e rest same none_owned = (x, (refl, same))

  -- a handler that looks a row up and goes on if the device owns it
  guarded_row :
      (bad : Bool) (e e' : Response) (rest : A → Handler) (w : Server)
      → ((k : List Bool) (a : A) → g (record w.store { faults = k }) ≡ some a → owned a ≡ false)
      → IsRefused w (
          (refuse_if bad e
              >> (on_error f (on_store (lookup g)) >>= λ a.
                  refuse_if (not (owned a)) e' >>= λ _. rest a))
            w)
  unfolding refuse_if on_error on_store ◌>>=◌
  guarded_row true e e' rest w none_owned = (e, (refl, refl))
  guarded_row false e e' rest w none_owned =
      let r = after_store w (lookup g w.store) in
      after_lookup w r.1 (Exec.recover f r.0) e' rest
        ((Reads-on_store (lookup g) (Reads-lookup g)).run w)
        (λ a h.
          let (k, row) =
            lookup-ok g w.store a (stored_ok w (lookup g w.store) a (recovered f r.0 a h)) in
          none_owned k a row)

-- A device's request on a service that is not its own is refused, whatever it asks for and whatever
-- fails, and no table changes.
pub handle_service_item-IsRefused :
    (dev : Device) (method : Method) (rest : String) (w : Server)
    → exists (λ v. service_is (cut b'/' rest).0 v && v.device_id == dev.id) w.store.services ≡ false
    → IsRefused w (handle_service_item dev method rest w)
unfolding handle_service_item get_service
handle_service_item-IsRefused dev method rest w none_owned =
    guarded_row (λ s. first (service_is (cut b'/' rest).0) s.services) (λ v. v.device_id == dev.id)
      _ _ _ _ _ w
      (λ k v row.
        first-exists_and (service_is (cut b'/' rest).0) _ w.store.services v none_owned row)

-- The same of a forward that is not its own.
pub handle_forward_item-IsRefused :
    (dev : Device) (method : Method) (rest : String) (w : Server)
    → exists (λ x. forward_is (cut b'/' rest).0 x && x.owner_device_id == dev.id) w.store.forwards
      ≡ false
    → IsRefused w (handle_forward_item dev method rest w)
unfolding handle_forward_item get_forward
handle_forward_item-IsRefused dev method rest w none_owned =
    guarded_row (λ s. first (forward_is (cut b'/' rest).0) s.forwards)
      (λ x. x.owner_device_id == dev.id) _ _ _ _ _ w
      (λ k x row.
        first-exists_and (forward_is (cut b'/' rest).0) _ w.store.forwards x none_owned row)
