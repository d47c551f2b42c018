-- ===== src/Accounts/Provision.antt =====
-- The authorized_keys of an account after a successful `Provision`.
use Prim.Native.String.{◌++◌}
use oh_my_lan.Prelude.{
  ℕ, zero, suc, ◌≡◌, refl, ◌∙◌, String, Bool, true, false, List, ℤ, inl, inr, Bool-cases,
}
use oh_my_lan.Exec.{Result, ok, err, Exec, pure, raise, on_error, attempt, ◌>>=◌, ◌>>◌}
use oh_my_lan.Exec.Keeps.{Keeps}
use oh_my_lan.Exec.Establishes.{Establishes, Establishes-last, Establishes-first}
use oh_my_lan.Files.{IsLawful, content, fails}
use oh_my_lan.Api.Address.{validate_pubkey, KeyError}
use oh_my_lan.Device.Enrollment.{username_for}
use oh_my_lan.Accounts.{
  System, State, Ran, try_again, settle, run, command, AccountError, bad_key, cannot_write_keys,
  chown_failed, auth_path, authorized_keys_line, write_authorized_keys, keys_or_undo, provision,
}
use oh_my_lan.Accounts.Line.{IsLine, authorized_keys_line-IsLine}

-- what the commands and the time leave of the files: `chown` and waiting change no content
pub record KeepsFiles (O : System) : Type 0 where
  pub files : IsLawful O.files
  pub read-chown :
      (p : String) (args : List String) (s : State O)
      → O.files.read p (O.exec "chown" args s).1 ≡ O.files.read p s
  pub read-wait : (p : String) (s : State O) → O.files.read p (O.wait s).1 ≡ O.files.read p s

fails-ok :
    {E S : Type 0}
    → (e : E) (r : Bool × S) (a : Unit {0}) → (fails e r).0 ≡ ok a
    → (r.0 ≡ false) × ((fails e r).1 ≡ r.1)
fails-ok e (true, s) a h = absurd (cc h)
fails-ok e (false, s) a h = (refl, refl)

module _ (O : System) (law : KeepsFiles O) where
  settle-read :
      (left : ℕ) (p : String) (args : List String) (r : Ran × State O)
      → O.files.read p (settle O left "chown" args r).1 ≡ O.files.read p r.1
  unfolding settle
  settle-read zero p args (r, s) = refl
  settle-read (suc left) p args (r, s) = elim (Bool-cases (try_again r)) [
    | inr settled ↦ rw settled refl
    | inl busy ↦ elim (Bool-cases (O.wait s).0) [
      | inl done ↦ rw (busy, done) (law.read-wait p s)
      | inr going ↦
          rw (busy, going)
            (settle-read left p args (O.exec "chown" args (O.wait s).1)
              ∙ law.read-chown p args (O.wait s).1
              ∙ law.read-wait p s)
    ]
  ]

  module _ (home_base user key : String) (ports : List ℤ) where
    -- the file of the keys is that line
    abbrev HasLine : State O → Type 0
    HasLine s =
        O.files.read (auth_path home_base user) s ≡ content (authorized_keys_line key ports ++ "\n")

    chown-HasLine : (args : List String) → Keeps HasLine (command O chown_failed "chown" args)
    unfolding command run
    chown-HasLine args = record {
      run = λ s h.
          settle-read 4 (auth_path home_base user) args (O.exec "chown" args s)
          ∙ law.read-chown (auth_path home_base user) args s
          ∙ h;
    }

    keys-HasLine : Establishes (write_authorized_keys O home_base user key ports) HasLine
    unfolding write_authorized_keys
    keys-HasLine = Establishes-last _ _ (λ _.
        Establishes-first _ _
          (record {
            run = λ s a e.
                let (written, same) = fails-ok cannot_write_keys (O.files.write _ _ s) a e in
                rw same (law.files.read-write _ _ s written);
          })
          (λ _. chown-HasLine _))

    -- Keys that could not be written end `provision` with an error.
    kept_or_raised :
        (there : Bool) (r : Result AccountError (Unit {0})) (s : State O) (name : String)
        → (r ≡ ok tt → HasLine s)
        → ((keys_or_undo O there user r >> pure user) s).0 ≡ ok name
        → HasLine ((keys_or_undo O there user r >> pure user) s).1
    unfolding keys_or_undo pure raise attempt ◌>>=◌
    kept_or_raised there (ok tt) s name h e = h refl
    kept_or_raised true (err x) s name h e = absurd (cc e)
    kept_or_raised false (err x) s name h e = absurd (cc e)

    then_keys :
        (there : Bool)
        → Establishes
            (do
              written ←
                  attempt {F = AccountError} (write_authorized_keys O home_base user key ports)
              keys_or_undo O there user written
              pure user)
            HasLine
    unfolding attempt ◌>>=◌
    then_keys there = record {
      run = λ s name e.
          let (r, s') = write_authorized_keys O home_base user key ports s in
          kept_or_raised there r s' name (λ h. keys-HasLine.run s tt h) e;
    }

  provision-HasLine :
      (home_base id key : String) (ports : List ℤ)
      → Establishes
          (provision O home_base id key ports)
          (HasLine home_base (username_for id) key ports)
  unfolding provision
  provision-HasLine home_base id key ports = Establishes-last _ _ (λ _. Establishes-last _ _ (λ _.
      Establishes-last _ _ (λ there.
        Establishes-last _ _ (λ _. then_keys home_base (username_for id) key ports there))))

  key_checked :
      (r : Result KeyError (Unit {0})) (f : Unit {0} → Exec (State O) AccountError String)
      (s : State O) (a : String)
      → ((on_error (λ _. bad_key) (λ s. (r, s)) >>= f) s).0 ≡ ok a
      → r ≡ ok tt
  unfolding on_error ◌>>=◌
  key_checked (ok tt) f s a e = refl
  key_checked (err x) f s a e = absurd (cc e)

  -- If `Provision` returns an account, the account's authorized_keys holds the line of the key and
  -- the ports and nothing else, and that is one line, if chown and waiting change no file's content.
  pub provision-ok :
      (home_base id key name : String) (ports : List ℤ) (s : State O)
      → (provision O home_base id key ports s).0 ≡ ok name
      → (O.files.read
            (auth_path home_base (username_for id))
            (provision O home_base id key ports s).1
          ≡ content (authorized_keys_line key ports ++ "\n"))
        × IsLine (authorized_keys_line key ports)
  unfolding provision
  provision-ok home_base id key name ports s e = (
    (provision-HasLine home_base id key ports).run s name e,
    authorized_keys_line-IsLine key ports (key_checked (validate_pubkey key) _ s name e),
  )
