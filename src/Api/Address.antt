-- ===== src/Api/Address.antt =====
-- `NormalizeLocalAddr` of internal/server/api/api.go, and `ValidatePubkey` of
-- internal/server/sshacct/sshacct.go: what requests write as free text.
use Prim.Native.String.{len, ◌++◌}
use oh_my_lan.Prelude.{
  String, Bool, false, not, ◌&&◌, ◌||◌, Option, none, some, List, ◌∷◌, ◌==◌, leb, ltb, ℤ, pos,
  negsuc, if◌then◌else◌,
}
use oh_my_lan.Exec.{Result, ok, err}
use oh_my_lan.Text.{
  trim_space, atoi, decimal, strip_prefix, split_host_port, join_host_port, fields, contains_char,
}

pub data AddressError : Type 0 where
  empty_addr bad_port bad_format : AddressError

-- `port < 1 || port > 65535` fails.
abbrev pub valid_port : ℤ → Bool
valid_port (pos n) = leb 1 n && leb n 65535
valid_port (negsuc n) = false

-- `fmt.Sprintf("127.0.0.1:%d", port)`
abbrev loopback : ℤ → Result AddressError String
loopback (pos n) = if leb 1 n && leb n 65535 then ok ("127.0.0.1:" ++ decimal n) else err bad_port
loopback (negsuc n) = err bad_port

abbrev loopback_of : Option ℤ → Result AddressError String
loopback_of none = err bad_port
loopback_of (some port) = loopback port

abbrev valid_port_text : Option ℤ → Bool
valid_port_text none = false
valid_port_text (some port) = valid_port port

abbrev default_host : String → String
default_host host = if host == "" then "127.0.0.1" else host

abbrev host_and_port : Option (String × String) → Result AddressError String
host_and_port none = err bad_format
host_and_port (some (host, port)) =
    if valid_port_text (atoi port)
    then ok (join_host_port (default_host host) port)
    else err bad_port

abbrev not_a_number : String → Option String → Result AddressError String
not_a_number s none = host_and_port (split_host_port s)
not_a_number s (some rest) = loopback_of (atoi rest)

abbrev number_or : String → Option ℤ → Result AddressError String
number_or s none = not_a_number s (strip_prefix ":" s)
number_or s (some port) = loopback port

unfoldable pub normalize_local_addr : String → Result AddressError String
unfolding atoi strip_prefix split_host_port join_host_port trim_space decimal
normalize_local_addr input =
    let s = trim_space input in if s == "" then err empty_addr else number_or s (atoi s)

pub data KeyError : Type 0 where
  empty_key many_lines bad_key_format bad_key_type bad_key_length : KeyError

abbrev key_parts : List String → Result KeyError (Unit {0})
key_parts (kind ∷ body ∷ rest) =
    if not (kind == "ssh-ed25519")
    then err bad_key_type
    else if ltb (len body) 40 || ltb 256 (len body)
    then err bad_key_length
    else ok tt
key_parts _ = err bad_key_format

unfoldable pub validate_pubkey : String → Result KeyError (Unit {0})
unfolding trim_space fields contains_char
validate_pubkey input =
    let line = trim_space input in
    if line == ""
    then err empty_key
    else if contains_char 10 line || contains_char 13 line
    then err many_lines
    else key_parts (fields line)
