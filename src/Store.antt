-- ===== src/Store.antt =====
-- internal/store: the SQLite tables of internal/store/migrations as lists of rows, newest first.
--
-- The constraints of the schema (PRIMARY KEY, UNIQUE, CHECK, REFERENCES with its ON DELETE action)
-- are written into the statements that they govern. An instant is kept as a number of nanoseconds
-- and compared as its stored text (Time). A call of the driver may fail: `faults` is the schedule
-- of failures, one entry for each statement, and a statement that fails changes no row. After the
-- schedule nothing fails.
pub mod Devices
pub mod Services
pub mod Forwards
pub mod Tokens
pub mod Logins
pub mod Audits
pub mod Schema
pub mod Keeps
pub mod Reads
pub mod Expiry
use oh_my_lan.Prelude.{ℕ, String, Bool, true, false, Option, none, some, List, [], ◌∷◌}
use oh_my_lan.Exec.{Result, ok, err, Exec}

pub record Device : Type 0 where
  pub id : String
  pub name : String
  pub tunnel_secret : String
  pub status : String
  pub created_at : ℕ
  pub last_seen_at : Option ℕ
  pub ssh_pubkey : String
  pub ssh_username : String
  pub ssh_locked_at : Option ℕ

abbrev pub offline : String
offline = "offline"

abbrev pub online : String
online = "online"

pub record Service : Type 0 where
  pub id : String
  pub device_id : String
  pub name : String
  pub protocol : String
  pub local_addr : String
  pub public_port : ℕ
  pub enabled : Bool
  pub bind_local : Bool
  pub created_at : ℕ
  pub last_probe_at : Option ℕ
  pub last_probe_ok : Bool

abbrev pub protocol_tcp : String
protocol_tcp = "tcp"

abbrev pub protocol_udp : String
protocol_udp = "udp"

pub record Forward : Type 0 where
  pub id : String
  pub owner_device_id : String
  pub remote_service_id : String
  pub local_port : ℕ
  pub enabled : Bool
  pub created_at : ℕ

pub record EnrollmentToken : Type 0 where
  pub id : String
  pub token_hash : String
  pub expires_at : ℕ
  pub used_at : Option ℕ
  pub used_by_device_id : Option String
  pub created_at : ℕ

pub record AdminUser : Type 0 where
  pub id : String
  pub username : String
  pub password_hash : String
  pub created_at : ℕ
  pub updated_at : ℕ

pub record Session : Type 0 where
  pub id : String
  pub user_id : String
  pub token_hash : String
  pub created_at : ℕ
  pub expires_at : ℕ
  pub last_used_at : Option ℕ

pub record AdminToken : Type 0 where
  pub id : String
  pub token_hash : String
  pub label : String
  pub created_at : ℕ
  pub last_used_at : Option ℕ

-- a value of the map that becomes the JSON text of `detail`
pub data Value : Type 0 where
  text : String → Value
  number : ℕ → Value
  flag : Bool → Value

pub record AuditEntry : Type 0 where
  pub id : String
  pub ts : ℕ
  pub actor : String
  pub action : String
  pub target : String
  pub detail : List (String × Value)

pub record BarkSettings : Type 0 where
  pub enabled : Bool
  pub bark_url : String
  pub offline_threshold_seconds : ℕ
  pub updated_at : ℕ

pub record Store : Type 0 where
  pub devices : List Device
  pub services : List Service
  pub forwards : List Forward
  pub tokens : List EnrollmentToken
  pub users : List AdminUser
  pub sessions : List Session
  pub admin_tokens : List AdminToken
  pub audit_log : List AuditEntry
  -- device_alert_state: a device and when it was alerted
  pub alerts : List (String × ℕ)
  -- the row of bark_settings, whose id is always 1
  pub bark : Option BarkSettings
  pub faults : List Bool

-- `ErrNotFound`, the constraint classes of SQLite, the entry without id of `WriteAudit`, and any
-- other error of the driver
pub data Error : Type 0 where
  not_found unique foreign_key check no_id driver : Error

abbrev pub take_fault : Store → List Bool → Result Error (Unit {0}) × Store
take_fault s [] = (ok tt, s)
take_fault s (true ∷ rest) = (err driver, record s { faults = rest })
take_fault s (false ∷ rest) = (ok tt, record s { faults = rest })

-- One call of the driver.
unfoldable pub statement : Exec Store Error (Unit {0})
statement s = take_fault s s.faults

-- `IsUniqueViolation`
abbrev pub is_unique_violation : Error → Bool
is_unique_violation unique = true
is_unique_violation _ = false

abbrev pub is_not_found : Error → Bool
is_not_found not_found = true
is_not_found _ = false

-- `sql.ErrNoRows` is `ErrNotFound`.
unfoldable pub found : {A : Type 0} → Option A → Exec Store Error A
found none s = (err not_found, s)
found (some a) s = (ok a, s)
