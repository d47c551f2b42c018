-- ===== src/Enroll.antt =====
-- internal/enroll/enroll.go, and the token format of internal/auth/secret.go: one-time tokens, and
-- the registration of a device with one.
pub mod Success
pub mod Failure
pub mod Conditions
use Prim.Native.Char.{code}
use Prim.Native.String.{◌++◌}
use oh_my_lan.Prelude.{
  ℕ, ◌+◌, ◌*◌, String, Bool, true, false, not, ◌&&◌, ◌||◌, Option, none, some, leb, ltb, nat_eq,
  ◌==◌, ℤ, pos_part, if◌then◌else◌,
}
use oh_my_lan.Exec.{Exec, pure, gets, refuse_if, on_error, ◌>>=◌, ◌>>◌}
use oh_my_lan.Time.{hour}
use oh_my_lan.Text.{strip_prefix}
use oh_my_lan.Store.{not_found, unique, Device, offline}
use oh_my_lan.Store.Tokens.{
  create_enrollment_token, get_enrollment_token_by_hash, consume_enrollment_token,
}
use oh_my_lan.Server.{Server, Fault, of_store, on_store, random_text}

abbrev pub default_token_ttl : ℕ
default_token_ttl = 24 * hour

-- A letter of the lower-case base32 alphabet, or one that `strings.ToUpper` makes one, or a line
-- break, which the decoder skips.
abbrev pub is_base32 : ℕ → Bool
is_base32 c =
    (leb b'a' c && leb c b'z')
    || (leb b'A' c && leb c b'Z')
    || (leb b'2' c && leb c b'7')
    || nat_eq c 10
    || nat_eq c 13
    || nat_eq c 0x131
    || nat_eq c 0x17f

unfoldable pub all_base32 : String → Bool
all_base32 String.[] = true
all_base32 (String.◌∷◌ c s) = is_base32 (code c) && all_base32 s

abbrev base32_body : Option String → Bool
base32_body none = false
base32_body (some body) = all_base32 body

-- `auth.ValidateEnrollTokenFormat`
unfoldable pub valid_token_format : String → Bool
unfolding strip_prefix all_base32
valid_token_format s = base32_body (strip_prefix "ot_" s)

pub data EnrollError : Type 0 where
  token_invalid token_expired device_exists empty_name : EnrollError
  other : Fault → EnrollError

pub record IssuedToken : Type 0 where
  pub id : String
  pub token : String
  pub expires_at : ℕ

-- A lifetime that is not positive stands for 24 hours.
abbrev pub token_ttl : ℤ → ℕ
token_ttl ttl = let n = pos_part ttl in if nat_eq n 0 then default_token_ttl else n

unfoldable pub issue_token : ℤ → Exec Server Fault IssuedToken
issue_token ttl = do
  id ← random_text
  text ← random_text
  now ← gets (λ w. w.now)
  hash ← gets (λ w. w.env.hash)
  on_store (
      create_enrollment_token (record {
        id = id;
        token_hash = hash ("ot_" ++ text);
        expires_at = now + token_ttl ttl;
        used_at = none;
        used_by_device_id = none;
        created_at = now;
      }))
  pure (record { id = id; token = "ot_" ++ text; expires_at = now + token_ttl ttl })

pub record EnrolledDevice : Type 0 where
  pub device_id : String
  pub device_name : String
  pub tunnel_secret : String

abbrev pub lookup_error : Fault → EnrollError
lookup_error (of_store not_found) = token_invalid
lookup_error f = other f

abbrev pub consume_error : Fault → EnrollError
consume_error (of_store not_found) = token_invalid
consume_error (of_store unique) = device_exists
consume_error f = other f

abbrev pub is_used : Option ℕ → Bool
is_used none = false
is_used (some t) = true

unfoldable pub new_device : String → String → String → ℕ → Device
new_device id name secret now = record {
  id = id;
  name = name;
  tunnel_secret = secret;
  status = offline;
  created_at = now;
  last_seen_at = none;
  ssh_pubkey = "";
  ssh_username = "";
  ssh_locked_at = none;
}

unfoldable pub enroll_device : String → String → Exec Server EnrollError EnrolledDevice
enroll_device raw name = do
  refuse_if (not (valid_token_format raw)) token_invalid
  refuse_if (name == "") empty_name
  hash ← gets (λ w. w.env.hash raw)
  tok ← on_error lookup_error (on_store (get_enrollment_token_by_hash hash))
  refuse_if (is_used tok.used_at) token_invalid
  now ← gets (λ w. w.now)
  refuse_if (not (ltb now tok.expires_at)) token_expired
  id ← on_error other random_text
  secret ← on_error other random_text
  on_error consume_error
      (on_store (consume_enrollment_token hash (new_device id name secret now) now))
  pure (record { device_id = id; device_name = name; tunnel_secret = secret })
