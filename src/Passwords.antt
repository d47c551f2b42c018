-- ===== src/Passwords.antt =====
-- internal/auth/password.go: passwords as argon2id hashes in PHC texts. Argon2id, base64 and random
-- bytes are outside.
pub mod Verify
use Prim.Native.Char.{code}
use Prim.Native.String
use Prim.Native.String.{◌++◌}
use oh_my_lan.Prelude.{
  ℕ, zero, suc, ◌+◌, ◌-◌, ◌*◌, ◌%◌, ◌^◌, String, Bool, true, false, not, ◌&&◌, ◌||◌, Option, none,
  some, List, [], ◌∷◌, ◌==◌, leb, nat_eq, ℤ, pos, negsuc, if◌then◌else◌,
}
use oh_my_lan.Exec.{Result, ok, err}
use oh_my_lan.Text.{strip_prefix, is_space, atoi, decimal}
use oh_my_lan.Text.Search.{split, join}

-- what is used of the libraries: `base64.RawStdEncoding`, the length and the comparison of bytes,
-- and `argon2.IDKey` of a password, a salt, a time, a memory, a number of threads and a length
pub record Library : Type 1 where
  pub Bytes : Type 0
  pub encode : Bytes → String
  pub decode : String → Option Bytes
  pub size : Bytes → ℕ
  pub same : Bytes → Bytes → Bool
  pub id_key : String → Bytes → ℕ → ℕ → ℕ → ℕ → Bytes

pub data PasswordError : Type 0 where
  no_random mismatch bad_phc bad_params bad_number bad_salt bad_key panics : PasswordError

abbrev pub argon_time : ℕ
argon_time = 3

abbrev pub argon_memory : ℕ
argon_memory = 65536

abbrev pub argon_threads : ℕ
argon_threads = 4

abbrev pub argon_key_len : ℕ
argon_key_len = 32

-- the digits at the head of a text
abbrev digits_head : String → String
digits_head String.[] = String.[]
digits_head (String.◌∷◌ c s) =
    let rest = digits_head s in
    if leb b'0' (code c) && leb (code c) b'9' then String.◌∷◌ c rest else String.[]

abbrev number_head : String → String
number_head String.[] = String.[]
number_head (String.◌∷◌ c s) =
    if nat_eq (code c) b'-' || nat_eq (code c) b'+'
    then String.◌∷◌ c (digits_head s)
    else digits_head (String.◌∷◌ c s)

-- `%d` of `fmt.Sscanf`: spaces but no line break, and a number that fits in 64 bits; what is behind
-- it is not read.
unfoldable pub scan_int : String → Option ℤ
unfolding atoi
scan_int String.[] = none
scan_int (String.◌∷◌ c s) =
    let rest = scan_int s in
    if nat_eq (code c) 10
    then none
    else if is_space (code c)
    then rest
    else atoi (number_head (String.◌∷◌ c s))

abbrev scan_rest : Option String → Option ℤ
scan_rest none = none
scan_rest (some rest) = scan_int rest

-- `fmt.Sscanf(s, "m=%d", &m)` and its like
unfoldable pub scan_field : String → String → Option ℤ
unfolding strip_prefix scan_int
scan_field name s = scan_rest (strip_prefix name s)

-- the conversion of an int to w bits without a sign
abbrev pub to_unsigned : ℕ → ℤ → ℕ
to_unsigned w (pos n) = n % 2 ^ w
to_unsigned w (negsuc n) = 2 ^ w - 1 - n % 2 ^ w

module _ (L : Library) where
  pub record Phc : Type 0 where
    pub memory : ℕ
    pub time : ℕ
    pub threads : ℕ
    pub salt : L.Bytes
    pub key : L.Bytes

  abbrev with_bytes : ℤ → ℤ → ℤ → Option L.Bytes → Option L.Bytes → Result PasswordError Phc
  with_bytes m t p none key = err bad_salt
  with_bytes m t p (some salt) none = err bad_key
  with_bytes m t p (some salt) (some key) = ok (record {
    memory = to_unsigned 32 m;
    time = to_unsigned 32 t;
    threads = to_unsigned 8 p;
    salt = salt;
    key = key;
  })

  abbrev with_params : Option ℤ → Option ℤ → Option ℤ → String → String → Result PasswordError Phc
  with_params (some m) (some t) (some p) salt key = with_bytes m t p (L.decode salt) (L.decode key)
  with_params (some m) (some t) none salt key = err bad_number
  with_params (some m) none p salt key = err bad_number
  with_params none t p salt key = err bad_number

  abbrev of_params : List String → String → String → Result PasswordError Phc
  of_params (m ∷ t ∷ p ∷ []) salt key =
      with_params (scan_field "m=" m) (scan_field "t=" t) (scan_field "p=" p) salt key
  of_params _ salt key = err bad_params

  abbrev of_parts : List String → Result PasswordError Phc
  of_parts (empty ∷ kind ∷ version ∷ params ∷ salt ∷ key ∷ []) =
      if not (empty == "") || not (kind == "argon2id") || not (version == "v=19")
      then err bad_phc
      else of_params (split b',' params) salt key
  of_parts _ = err bad_phc

  unfoldable pub parse_phc : String → Result PasswordError Phc
  unfolding split scan_field
  parse_phc s = of_parts (split b'$' s)

  -- `argon2.IDKey` panics without a round or a thread.
  abbrev compared : String → Phc → Result PasswordError (Unit {0})
  compared plain h =
      if nat_eq h.time 0 || nat_eq h.threads 0
      then err panics
      else if L.same
          (L.id_key plain h.salt h.time h.memory h.threads (to_unsigned 32 (pos (L.size h.key))))
          h.key
      then ok tt
      else err mismatch

  abbrev verified : String → Result PasswordError Phc → Result PasswordError (Unit {0})
  verified plain (err e) = err e
  verified plain (ok h) = compared plain h

  unfoldable pub verify_password : String → String → Result PasswordError (Unit {0})
  unfolding parse_phc
  verify_password plain encoded = verified plain (parse_phc encoded)

  -- `salt` is what the random bytes come to, if there are any.
  unfoldable pub hash_password : String → Option L.Bytes → Result PasswordError String
  unfolding join decimal
  hash_password plain none = err no_random
  hash_password plain (some salt) = ok (
      join "$" (
        ""
        ∷ "argon2id"
        ∷ "v=19"
        ∷ ("m="
            ++ decimal argon_memory
            ++ ",t="
            ++ decimal argon_time
            ++ ",p="
            ++ decimal argon_threads)
        ∷ L.encode salt
        ∷ L.encode (L.id_key plain salt argon_time argon_memory argon_threads argon_key_len)
        ∷ []))
