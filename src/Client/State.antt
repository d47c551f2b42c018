-- ===== src/Client/State.antt =====
-- internal/client/state.go, and `EnrollNew` of internal/client/daemon.go: what a device keeps.
use Prim.Native.String.{◌++◌}
use oh_my_lan.Prelude.{ℕ, String, ◌||◌, ◌==◌, Option, none, some, if◌then◌else◌}
use oh_my_lan.Exec.{Exec, Result, ok, err, ◌>>◌}
use oh_my_lan.Files.{FileSystem, ReadResult, missing, unreadable, content, fails}
use oh_my_lan.Http.{EnrollDeviceResponse}

pub record DeviceState : Type 0 where
  pub server_url : String
  pub device_id : String
  pub device_name : String
  pub tunnel_secret : String
  pub server_fingerprint : String
  pub chisel_addr : String
  pub ssh_username : String
  pub ssh_host : String
  pub ssh_port : ℕ

pub data StateError : Type 0 where
  state_missing cannot_read not_json incomplete no_directory cannot_write cannot_rename : StateError

-- `filepath.Join(dataDir, "state.json")`, for a directory without a trailing slash
abbrev pub state_path : String → String
state_path data_dir = data_dir ++ "/state.json"

abbrev pub complete : DeviceState → Result StateError DeviceState
complete s = if s.device_id == "" || s.tunnel_secret == "" then err incomplete else ok s

abbrev pub decoded_state : Option DeviceState → Result StateError DeviceState
decoded_state none = err not_json
decoded_state (some s) = complete s

unfoldable pub load_text :
    (String → Option DeviceState) → ReadResult → Result StateError DeviceState
load_text decode missing = err state_missing
load_text decode unreadable = err cannot_read
load_text decode (content text) = decoded_state (decode text)

module _ (F : FileSystem) where
  -- `LoadState`
  unfoldable pub load_state :
      (String → Option DeviceState) → String → F.State → Result StateError DeviceState
  unfolding load_text
  load_state decode path s = load_text decode (F.read path s)

  -- The directory, a text beside the file, and the rename over it. `dir` is `filepath.Dir(path)`.
  unfoldable pub save_state : String → String → String → Exec F.State StateError (Unit {0})
  save_state dir path text = do
    (λ s. fails no_directory (F.make_dir dir s))
    (λ s. fails cannot_write (F.write (path ++ ".tmp") text s))
    (λ s. fails cannot_rename (F.rename (path ++ ".tmp") path s))

-- the state that `EnrollNew` saves
abbrev pub enrolled_state : String → EnrollDeviceResponse → DeviceState
enrolled_state server_url r = record {
  server_url = server_url;
  device_id = r.device_id;
  device_name = r.device_name;
  tunnel_secret = r.tunnel_secret;
  server_fingerprint = r.server_fingerprint;
  chisel_addr = r.chisel_addr;
  ssh_username = r.ssh_username;
  ssh_host = r.ssh_host;
  ssh_port = r.ssh_port;
}
