-- ===== src/Accounts.antt =====
-- internal/server/sshacct/sshacct.go: the restricted ssh account of each device. The files, the
-- commands of the operating system and the passage of time are outside.
pub mod Retry
pub mod Line
pub mod Provision
use Prim.Native.Char.{code}
use Prim.Native.String
use Prim.Native.String.{◌++◌, len}
use oh_my_lan.Prelude.{
  ℕ, zero, suc, String, Bool, true, false, not, ◌&&◌, ◌||◌, Option, none, some, List, [], ◌∷◌, map,
  ◌==◌, leb, nat_eq, ℤ, exists, if◌then◌else◌,
}
use oh_my_lan.Exec.{Result, ok, err, Exec, pure, raise, refuse_if, on_error, attempt, ◌>>=◌, ◌>>◌}
use oh_my_lan.Text.{strip_prefix, trim_space}
use oh_my_lan.Text.Search.{has_prefix, has_suffix, split, join, folded_contains, fold_code}
use oh_my_lan.Files.{FileSystem, ReadResult, missing, unreadable, content, fails}
use oh_my_lan.Tunnel.{decimal_of}
use oh_my_lan.Api.Address.{validate_pubkey}
use oh_my_lan.Device.Enrollment.{username_for}

-- how a command ends: well, with an exit code, or without one, or the context ends before it starts
pub data RunError : Type 0 where
  exited : ℕ → RunError
  not_started context_done : RunError

-- what `run` returns: the output, and the error if there is one
pub record Ran : Type 0 where
  pub output : String
  pub error : Option RunError

pub record System : Type 1 where
  pub files : FileSystem
  -- `runOnce`: a command with its arguments
  pub exec : String → List String → files.State → Ran × files.State
  -- a second of waiting, and whether the context ends before
  pub wait : files.State → Bool × files.State
  -- what the one read of at most 64 KiB of /etc/passwd returns
  pub passwd : files.State → ReadResult

-- `lockBusyRE`
unfoldable pub lock_busy : String → Bool
unfolding folded_contains
lock_busy out =
    exists (λ t. folded_contains fold_code t out)
      ("cannot lock passwd" ∷ "cannot lock /etc/passwd" ∷ "another holds" ∷ "another process holds"
        ∷ "another program holds" ∷ "try again later" ∷ [])

-- whether `run` tries again after this
abbrev pub busy_error : Option RunError → String → Bool
busy_error none out = false
busy_error (some e) out = lock_busy out

abbrev pub try_again : Ran → Bool
try_again r = busy_error r.error r.output

abbrev all_hex : String → Bool
all_hex String.[] = true
all_hex (String.◌∷◌ c s) =
    ((leb b'a' (code c) && leb (code c) b'f') || (leb b'0' (code c) && leb (code c) b'9'))
    && all_hex s

abbrev hex_body : Option String → Bool
hex_body none = false
hex_body (some body) = nat_eq (len body) 8 && all_hex body

-- `validNameRE`
unfoldable pub valid_name : String → Bool
unfolding strip_prefix
valid_name user = hex_body (strip_prefix "oml-" user)

unfoldable pub permitopen : ℤ → String
permitopen port = "permitopen=\"127.0.0.1:" ++ decimal_of port ++ "\""

abbrev pub managed_key : String → String
managed_key pubkey =
    let key = trim_space pubkey in
    if has_suffix "oml-managed" key then key else key ++ " oml-managed"

unfoldable pub authorized_keys_line : String → List ℤ → String
unfolding permitopen join has_suffix trim_space
authorized_keys_line pubkey ports =
    join "," ("restrict" ∷ "port-forwarding" ∷ map permitopen ports) ++ " " ++ managed_key pubkey

abbrev pub has_account : String → ReadResult → Result RunError Bool
has_account user missing = ok false
has_account user unreadable = err not_started
has_account user (content text) = ok (exists (has_prefix (user ++ ":")) (split 10 text))

pub data AccountError : Type 0 where
  bad_key bad_name cannot_check no_account cannot_make_dir cannot_write_keys : AccountError
  useradd_failed userdel_failed chown_failed : AccountError

abbrev pub ssh_dir : String → String → String
ssh_dir home_base user = home_base ++ "/" ++ user ++ "/.ssh"

abbrev pub auth_path : String → String → String
auth_path home_base user = ssh_dir home_base user ++ "/authorized_keys"

module _ (O : System) where
  abbrev pub State : Type 0
  State = O.files.State

  -- The rest of the loop of `run` after a try, with as many tries left.
  unfoldable pub settle : ℕ → String → List String → Ran × State → Ran × State
  settle zero name args (r, s) = (r, s)
  settle (suc left) name args (r, s) =
      let (done, s1) = O.wait s in
      let again = settle left name args (O.exec name args s1) in
      if try_again r
      then if done then (record { output = ""; error = some context_done }, s1) else again
      else (r, s)

  -- `run`: five tries at most
  unfoldable pub run : String → List String → State → Ran × State
  unfolding settle
  run name args s = settle 4 name args (O.exec name args s)

  abbrev pub outcome : AccountError → Option RunError → Result AccountError (Unit {0})
  outcome e none = ok tt
  outcome e (some x) = err e

  unfoldable pub command : AccountError → String → List String → Exec State AccountError (Unit {0})
  unfolding run
  command e name args s = let (r, s') = run name args s in (outcome e r.error, s')

  unfoldable pub user_exists : String → Exec State AccountError Bool
  unfolding split
  user_exists user s = (checked (has_account user (O.passwd s)), s)
    where
      checked : Result RunError Bool → Result AccountError Bool
      checked (ok b) = ok b
      checked (err e) = err cannot_check

  unfoldable pub write_authorized_keys :
      String → String → String → List ℤ → Exec State AccountError (Unit {0})
  unfolding command authorized_keys_line
  write_authorized_keys home_base user pubkey ports = do
    (λ s. fails cannot_make_dir (O.files.make_dir (ssh_dir home_base user) s))
    (λ s.
        fails cannot_write_keys
          (O.files.write (auth_path home_base user) (authorized_keys_line pubkey ports ++ "\n") s))
    command chown_failed "chown" ("-R" ∷ (user ++ ":" ++ user) ∷ ssh_dir home_base user ∷ [])

  unfoldable pub create_unless : Bool → String → Exec State AccountError (Unit {0})
  unfolding command
  create_unless true user = pure tt
  create_unless false user =
      command useradd_failed "useradd" ("-m" ∷ "-s" ∷ "/usr/sbin/nologin" ∷ user ∷ [])

  -- An account that was just made goes again if its keys cannot be written.
  unfoldable pub keys_or_undo :
      Bool → String → Result AccountError (Unit {0}) → Exec State AccountError (Unit {0})
  unfolding command
  keys_or_undo there user (ok _) = pure tt
  keys_or_undo true user (err e) = raise e
  keys_or_undo false user (err e) = do
    attempt {E = AccountError} (command userdel_failed "userdel" ("-r" ∷ user ∷ []))
    raise e

  unfoldable pub provision : String → String → String → List ℤ → Exec State AccountError String
  unfolding user_exists create_unless write_authorized_keys keys_or_undo
  provision home_base device_id pubkey ports = do
    on_error (λ _. bad_key) (λ s. (validate_pubkey pubkey, s))
    let user = username_for device_id
    refuse_if (not (valid_name user)) bad_name
    there ← user_exists user
    create_unless there user
    written ← attempt (write_authorized_keys home_base user pubkey ports)
    keys_or_undo there user written
    pure user

  -- An account is locked as far as that goes: what fails is logged.
  unfoldable pub lock_account : Bool → String → String → Exec State AccountError (Unit {0})
  unfolding command
  lock_account false home_base user = pure tt
  lock_account true home_base user = do
    attempt {E = AccountError} (command no_account "usermod" ("-L" ∷ user ∷ []))
    attempt {E = AccountError}
        (λ s. fails cannot_write_keys (O.files.write (auth_path home_base user) "" s))
    attempt {E = AccountError} (command no_account "pkill" ("-u" ∷ user ∷ []))
    pure tt

  unfoldable pub lock : String → String → Exec State AccountError (Unit {0})
  unfolding user_exists lock_account
  lock home_base device_id = do
    let user = username_for device_id
    refuse_if (not (valid_name user)) bad_name
    there ← user_exists user
    lock_account there home_base user

  unfoldable pub delete_if : Bool → String → Exec State AccountError (Unit {0})
  unfolding command
  delete_if false user = pure tt
  delete_if true user = command userdel_failed "userdel" ("-r" ∷ user ∷ [])

  unfoldable pub delete_account : String → Exec State AccountError (Unit {0})
  unfolding user_exists delete_if
  delete_account device_id = do
    let user = username_for device_id
    refuse_if (not (valid_name user)) bad_name
    there ← user_exists user
    delete_if there user

  unfoldable pub update_allowed_ports :
      String → String → String → List ℤ → Exec State AccountError (Unit {0})
  unfolding user_exists write_authorized_keys
  update_allowed_ports home_base device_id pubkey ports = do
    let user = username_for device_id
    refuse_if (not (valid_name user)) bad_name
    there ← user_exists user
    refuse_if (not there) no_account
    write_authorized_keys home_base user pubkey ports
