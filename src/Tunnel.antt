-- ===== src/Tunnel.antt =====
-- internal/tunnel/spec.go, and what internal/tunnel/client.go gives the chisel client.
pub mod Specs
use Prim.Native.Char.{code}
use Prim.Native.String.{◌++◌}
use oh_my_lan.Prelude.{
  ℕ, suc, ◌+◌, String, Bool, true, false, not, ◌&&◌, ◌||◌, List, [], ◌∷◌, ◌==◌, leb, nat_eq, ℤ, pos,
  negsuc, if◌then◌else◌,
}
use oh_my_lan.Exec.{Result, ok, err}
use oh_my_lan.Text.{decimal}
use oh_my_lan.Api.Address.{valid_port}

pub record Remote : Type 0 where
  pub public_port : ℤ
  pub local_addr : String
  pub protocol : String
  pub bind_local : Bool

pub record Local : Type 0 where
  pub local_port : ℤ
  pub remote_public_port : ℤ
  pub protocol : String

pub data SpecError : Type 0 where
  bad_public_port bad_local_port bad_remote_public_port no_local_addr bad_protocol no_server_url
        no_credentials :
      SpecError

abbrev pub lower_code : ℕ → ℕ
lower_code c = if leb b'A' c && leb c b'Z' then c + 32 else c

-- `strings.EqualFold` with a text of the letters t, c, p, u and d, which fold in ASCII only
unfoldable pub equal_fold : String → String → Bool
equal_fold String.[] String.[] = true
equal_fold String.[] (String.◌∷◌ d t) = false
equal_fold (String.◌∷◌ c s) String.[] = false
equal_fold (String.◌∷◌ c s) (String.◌∷◌ d t) =
    nat_eq (lower_code (code c)) (lower_code (code d)) && equal_fold s t

-- the `switch strings.ToLower(protocol)`
unfoldable pub known_protocol : String → Bool
unfolding equal_fold
known_protocol p = equal_fold p "tcp" || equal_fold p "udp"

unfoldable pub validate_local : Local → Result SpecError (Unit {0})
unfolding known_protocol
validate_local l =
    if not (valid_port l.local_port)
    then err bad_local_port
    else if not (valid_port l.remote_public_port)
    then err bad_remote_public_port
    else if known_protocol l.protocol
    then ok tt
    else err bad_protocol

-- `%d`
abbrev pub decimal_of : ℤ → String
decimal_of (pos n) = decimal n
decimal_of (negsuc n) = "-" ++ decimal (suc n)

abbrev pub udp_suffix : String → String
udp_suffix p = if equal_fold p "udp" then "/udp" else ""

unfoldable pub local_spec : Local → String
unfolding equal_fold decimal
local_spec l =
    "127.0.0.1:"
    ++ decimal_of l.local_port
    ++ ":127.0.0.1:"
    ++ decimal_of l.remote_public_port
    ++ udp_suffix l.protocol

unfoldable pub validate_remote : Remote → Result SpecError (Unit {0})
unfolding known_protocol
validate_remote r =
    if not (valid_port r.public_port)
    then err bad_public_port
    else if r.local_addr == ""
    then err no_local_addr
    else if known_protocol r.protocol
    then ok tt
    else err bad_protocol

abbrev pub bind_address : Bool → String
bind_address true = "127.0.0.1"
bind_address false = "0.0.0.0"

unfoldable pub remote_spec : Remote → String
unfolding equal_fold decimal
remote_spec r =
    "R:"
    ++ bind_address r.bind_local
    ++ ":"
    ++ decimal_of r.public_port
    ++ ":"
    ++ r.local_addr
    ++ udp_suffix r.protocol

abbrev pub and_spec :
    Result SpecError (Unit {0})
    → String
    → Result SpecError (List String)
    → Result SpecError (List String)
and_spec (err e) spec rest = err e
and_spec (ok _) spec (err e) = err e
and_spec (ok _) spec (ok specs) = ok (spec ∷ specs)

-- the loop over the locals
unfoldable pub local_specs : List Local → Result SpecError (List String)
unfolding validate_local local_spec
local_specs [] = ok []
local_specs (l ∷ ls) = and_spec (validate_local l) (local_spec l) (local_specs ls)

-- the loop over the remotes, and then over the locals
unfoldable pub all_specs : List Remote → List Local → Result SpecError (List String)
unfolding validate_remote remote_spec local_specs
all_specs [] ls = local_specs ls
all_specs (r ∷ rs) ls = and_spec (validate_remote r) (remote_spec r) (all_specs rs ls)

-- `NewClient` up to the call of chisel: the `Remotes` of its configuration
unfoldable pub new_client :
    String → String → String → List Remote → List Local → Result SpecError (List String)
unfolding all_specs
new_client server_url device_id secret rs ls =
    if server_url == ""
    then err no_server_url
    else if device_id == "" || secret == ""
    then err no_credentials
    else all_specs rs ls
