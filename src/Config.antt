-- ===== src/Config.antt =====
-- internal/config/server.go and client.go. The YAML decoder is outside: it reads a text over the
-- defaults, or fails.
pub mod Bounds
use oh_my_lan.Prelude.{
  ℕ, String, Bool, true, false, ◌&&◌, ◌||◌, not, ◌==◌, leb, ℤ, pos, negsuc, greater, Option, none,
  some, if◌then◌else◌,
}
use oh_my_lan.Exec.{Result, ok, err}
use oh_my_lan.Files.{ReadResult, missing, unreadable, content}

pub record LogConfig : Type 0 where
  pub level : String
  pub format : String

pub record PortPool : Type 0 where
  pub min : ℤ
  pub max : ℤ

pub record ServerConfig : Type 0 where
  pub listen_addr : String
  pub chisel_listen_addr : String
  pub chisel_advertise_addr : String
  pub chisel_key_seed : String
  pub data_dir : String
  pub port_pool : PortPool
  pub log : LogConfig
  pub ssh_host : String
  pub ssh_port : ℤ
  pub disable_ssh_acct : Bool

abbrev pub default_server_config : ServerConfig
default_server_config = record {
  listen_addr = ":8080";
  chisel_listen_addr = ":8443";
  chisel_advertise_addr = "";
  chisel_key_seed = "";
  data_dir = "./data";
  port_pool = record { min = pos 40000; max = pos 49999 };
  log = record { level = "info"; format = "text" };
  ssh_host = "";
  ssh_port = pos 0;
  disable_ssh_acct = false;
}

pub data ConfigError : Type 0 where
  no_file not_yaml no_listen_addr no_chisel_listen_addr no_data_dir bad_pool pool_too_high :
      ConfigError

-- `n <= 0`
abbrev pub not_positive : ℤ → Bool
not_positive (pos n) = leb n 0
not_positive (negsuc n) = true

unfoldable pub validate : ServerConfig → Result ConfigError (Unit {0})
validate c =
    if c.listen_addr == ""
    then err no_listen_addr
    else if c.chisel_listen_addr == ""
    then err no_chisel_listen_addr
    else if c.data_dir == ""
    then err no_data_dir
    else if not_positive c.port_pool.min
        || not_positive c.port_pool.max
        || greater c.port_pool.min c.port_pool.max
    then err bad_pool
    else if greater c.port_pool.min (pos 65535) || greater c.port_pool.max (pos 65535)
    then err pool_too_high
    else ok tt

abbrev pub validated :
    ServerConfig → Result ConfigError (Unit {0}) → Result ConfigError ServerConfig
validated c (ok _) = ok c
validated c (err e) = err e

abbrev pub checked_config : Option ServerConfig → Result ConfigError ServerConfig
checked_config none = err not_yaml
checked_config (some c) = validated c (validate c)

abbrev pub parsed_config :
    (ServerConfig → String → Option ServerConfig) → ReadResult → Result ConfigError ServerConfig
parsed_config yaml missing = err no_file
parsed_config yaml unreadable = err no_file
parsed_config yaml (content text) = checked_config (yaml default_server_config text)

-- The defaults are not checked.
unfoldable pub load_server :
    (ServerConfig → String → Option ServerConfig)
    → (String → ReadResult)
    → String
    → Result ConfigError ServerConfig
unfolding validate
load_server yaml read path =
    if path == "" then ok default_server_config else parsed_config yaml (read path)

pub record ClientConfig : Type 0 where
  pub server_url : String
  pub device_name : String
  pub data_dir : String
  pub ipc_socket : String
  pub reload_interval_seconds : ℤ
  pub log : LogConfig

abbrev pub default_client_config : ClientConfig
default_client_config = record {
  server_url = "";
  device_name = "";
  data_dir = "./data";
  ipc_socket = "";
  reload_interval_seconds = pos 0;
  log = record { level = "info"; format = "text" };
}

abbrev parsed_client : Option ClientConfig → Result ConfigError ClientConfig
parsed_client none = err not_yaml
parsed_client (some c) = ok c

abbrev client_config :
    (ClientConfig → String → Option ClientConfig) → ReadResult → Result ConfigError ClientConfig
client_config yaml missing = err no_file
client_config yaml unreadable = err no_file
client_config yaml (content text) = parsed_client (yaml default_client_config text)

unfoldable pub load_client :
    (ClientConfig → String → Option ClientConfig)
    → (String → ReadResult)
    → String
    → Result ConfigError ClientConfig
load_client yaml read path =
    if path == "" then ok default_client_config else client_config yaml (read path)
