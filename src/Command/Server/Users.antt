-- ===== src/Command/Server/Users.antt =====
-- What the commands leave in the tables.
use oh_my_lan.Prelude.{
  ℕ, ◌≡◌, refl, String, true, not, ◌&&◌, ◌==◌, eq_refl, some, List, [], ◌∷◌, exists, update, arith,
  inl, inr, Bool-cases,
}
use oh_my_lan.Exec.{Result, ok, err, gets, modify, refuse_if, ◌>>=◌, ◌>>◌}
use oh_my_lan.Exec.Triple.{Triple, Triple-bind, Triple-gets, Triple-refuse_if}
use oh_my_lan.Exec.Establishes.{Establishes, Establishes-last}
use oh_my_lan.Store.{Store, AdminUser, Error}
use oh_my_lan.Store.Logins.{
  username_is, with_password, update_admin_user_password, create_admin_user,
}
use oh_my_lan.Server.{Fault}
use oh_my_lan.Server.Keeps.{InStore, Establishes-on_store}
use oh_my_lan.Command.Server.{new_user, insert_user, set_user, run_admin_user_set}

-- a user of the name with the password
abbrev pub HasPassword : String → String → Store → Type 0
HasPassword name hash s = exists (λ u. username_is name u && u.password_hash == hash) s.users ≡ true

update-HasPassword :
    (name hash : String) (now : ℕ) (us : List AdminUser)
    → exists (username_is name) us ≡ true
    → exists
        (λ u. username_is name u && u.password_hash == hash)
        (update (username_is name) (with_password hash now) us)
      ≡ true
update-HasPassword name hash now [] h = h
update-HasPassword name hash now (u ∷ us) h = elim (Bool-cases (username_is name u)) [
  | inl y ↦ rw y (rw (y, eq_refl hash) refl)
  | inr n ↦ rw n (rw n (update-HasPassword name hash now us (ground (arith, h, n))))
]

update_rows :
    (name hash : String) (now : ℕ)
    → Establishes (update_admin_user_password name hash now) (HasPassword name hash)
unfolding update_admin_user_password modify
update_rows name hash now =
    Establishes-last _ _ (λ _. record { run = λ s a e. (found.run s tt a e) })
  where
    found :
        Triple {E = Error}
          (λ _. Unit {0})
          (gets (λ s. exists (username_is name) s.users) >>= λ there.
            refuse_if (not there) Error.not_found
            >> modify (λ s. record s {
              users = update (username_is name) (with_password hash now) s.users;
            }))
          (λ _ s. HasPassword name hash s)
    found =
        Triple-bind (λ there s. exists (username_is name) s.users ≡ there) _ _
          (Triple-gets _ (λ s h. refl))
          λ there. Triple-bind _ _ _ (Triple-refuse_if (not there) Error.not_found) λ _. record {
            run = λ s h a e. update-HasPassword name hash now s.users (ground (arith, h.0, h.1));
          }

create_rows :
    (u : AdminUser) → Establishes (create_admin_user u) (HasPassword u.username u.password_hash)
unfolding create_admin_user modify
create_rows u = Establishes-last _ _ (λ _. Establishes-last _ _ (λ clash.
    Establishes-last _ _
      (λ _. record { run = λ s a e. rw (eq_refl u.username, eq_refl u.password_hash) refl })))

set_user_rows :
    (name hash : String) (now : ℕ) (r : Result Fault AdminUser)
    → Establishes (set_user name hash now r) (InStore (HasPassword name hash))
unfolding set_user insert_user new_user
set_user_rows name hash now (ok u) = Establishes-on_store _ (update_rows name hash now)
set_user_rows name hash now (err f) =
    Establishes-last _ _ (λ id. Establishes-on_store _ (create_rows (new_user id name hash now)))

-- Once the command that sets a password has succeeded, there is a user of the name with that hash,
-- whether there was one before or not.
pub run_admin_user_set-HasPassword :
    (name hash : String)
    → Establishes (run_admin_user_set name (some hash)) (InStore (HasPassword name hash))
unfolding run_admin_user_set
run_admin_user_set-HasPassword name hash =
    Establishes-last _ _
      (λ now. Establishes-last _ _ (λ existing. set_user_rows name hash now existing))
