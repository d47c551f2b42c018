-- ===== src/Server.antt =====
-- internal/server/server.go: what the requests share, as one state, and the calls of what is not
-- under internal: the chisel server, the commands of the operating system, the clock and the
-- source of random bytes.
pub mod Keeps
pub mod KeySeed
use Prim.Native.String.{◌++◌}
use oh_my_lan.Prelude.{
  ℕ, zero, suc, String, Bool, true, false, not, Option, none, some, List, [], ◌∷◌, ◌==◌, exists,
  delete, if◌then◌else◌,
}
use oh_my_lan.Exec.{Result, ok, err, Exec, pure, raise, gets, modify, attempt, ◌>>=◌, ◌>>◌}
use oh_my_lan.Store.{Store, Error, Value, AuditEntry}
use oh_my_lan.Store.Audits.{write_audit}

-- The library functions that are taken as they are: `auth.HashSecret` is the hex text of SHA-256,
-- and `passwords_match` is the comparison at the end of `auth.VerifyPassword`.
pub record Env : Type 0 where
  pub hash : String → String
  pub passwords_match : String → String → Bool
  pub port_min : ℕ
  pub port_max : ℕ
  -- `SSHAcct != nil`
  pub ssh_accounts : Bool
  pub ssh_host : String
  pub ssh_port : ℕ
  pub fingerprint : String
  pub chisel_addr : String

pub record Server : Type 0 where
  pub env : Env
  pub store : Store
  -- `tunnel.Server.devices`, the mirror of chisel's user index
  pub mirror : List String
  -- `LoginRateLimiter.failures`
  pub failures : List (String × List ℕ)
  -- what `time.Now` returns throughout a request
  pub now : ℕ
  -- the encoded texts of the random bytes to come; at the end `rand.Read` fails
  pub entropy : List String
  -- which calls of chisel and of commands fail, in order; after the end none does
  pub outcomes : List Bool

-- why a call failed: an error of the store, or any error of another kind
pub data Fault : Type 0 where
  of_store : Error → Fault
  of_entropy of_chisel of_command : Fault

-- A call of the store from a request.
abbrev pub after_store : {A : Type 0} → Server → Result Error A × Store → Result Fault A × Server
after_store w (ok a, s) = (ok a, record w { store = s })
after_store w (err e, s) = (err (of_store e), record w { store = s })

unfoldable pub on_store : {A : Type 0} → Exec Store Error A → Exec Server Fault A
on_store m w = after_store w (m w.store)

abbrev pub draw : Server → List String → Result Fault String × Server
draw w [] = (err of_entropy, w)
draw w (x ∷ rest) = (ok x, record w { entropy = rest })

-- `auth.NewRandomID`, `NewDeviceID`, `NewTunnelSecret`: the encoded text of fresh random bytes
unfoldable pub random_text : Exec Server Fault String
random_text w = draw w w.entropy

abbrev pub take_outcome : Fault → Server → List Bool → Result Fault (Unit {0}) × Server
take_outcome f w [] = (ok tt, w)
take_outcome f w (true ∷ rest) = (err f, record w { outcomes = rest })
take_outcome f w (false ∷ rest) = (ok tt, record w { outcomes = rest })

-- A call of something outside, which may fail.
unfoldable pub outside : Fault → Exec Server Fault (Unit {0})
outside f w = take_outcome f w w.outcomes

-- internal/tunnel/server.go

-- `AddDevice`: the mirror follows chisel's user index if `AddUser` succeeds.
unfoldable pub add_device : String → Exec Server Fault (Unit {0})
add_device id = do
  outside of_chisel
  modify (λ w. record w { mirror = id ∷ delete (λ d. d == id) w.mirror })

-- `RemoveDevice`; chisel's `DeleteUser` returns nothing.
unfoldable pub remove_device : String → Exec Server Fault (Unit {0})
remove_device id = modify (λ w. record w { mirror = delete (λ d. d == id) w.mirror })

abbrev pub has_device : String → Server → Bool
has_device id w = exists (λ d. d == id) w.mirror

-- `Auditor.Write`: an error is logged and dropped, and so is that of the id.
abbrev pub or_empty : Result Fault String → String
or_empty (ok id) = id
or_empty (err e) = ""

unfoldable pub audit :
    String → String → String → List (String × Value) → Exec Server Fault (Unit {0})
audit actor action target detail = do
  id ← attempt random_text
  now ← gets (λ w. w.now)
  attempt {E = Fault} (
      on_store (
        write_audit (record {
          id = or_empty id;
          ts = now;
          actor = actor;
          action = action;
          target = target;
          detail = detail;
        })))
  pure tt

unfoldable pub device_actor : String → String
device_actor id = "device:" ++ id
