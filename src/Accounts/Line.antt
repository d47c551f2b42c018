-- ===== src/Accounts/Line.antt =====
-- The line of authorized_keys.
use Prim.Native.String.{◌++◌}
use oh_my_lan.Prelude.{
  ℕ, zero, suc, ◌≡◌, refl, ◌∙◌, String, Bool, true, false, ◌||◌, ◌==◌, ◌%◌, ◌/◌, List, [], ◌∷◌, map,
  ℤ, pos, negsuc, arith, ltb, if◌then◌else◌,
}
use oh_my_lan.Exec.{ok}
use oh_my_lan.Exec.Establishes.{passed}
use oh_my_lan.Text.{contains_char, trim_space, decimal, decimal_digits, digit}
use oh_my_lan.Text.Search.{join, has_suffix}
use oh_my_lan.Text.Trim.{contains_char-append}
use oh_my_lan.Tunnel.{decimal_of}
use oh_my_lan.Api.Address.{validate_pubkey}
use oh_my_lan.Accounts.{permitopen, managed_key, authorized_keys_line}

-- a text without line breaks
pub record IsLine (s : String) : Type 0 where
  pub newline : contains_char 10 s ≡ false
  pub return : contains_char 13 s ≡ false

line : {s : String} → contains_char 10 s ≡ false → contains_char 13 s ≡ false → IsLine s
line h k = record { newline = h; return = k }

append-IsLine : (s t : String) → IsLine s → IsLine t → IsLine (s ++ t)
append-IsLine s t h k =
    line (contains_char-append 10 s t ∙ rw (h.newline, k.newline) refl)
      (contains_char-append 13 s t ∙ rw (h.return, k.return) refl)

if-IsLine : (b : Bool) (s t : String) → IsLine s → IsLine t → IsLine (if b then s else t)
if-IsLine true s t h k = h
if-IsLine false s t h k = k

digit-IsLine : (d : ℕ) → IsLine (digit d)
unfolding contains_char
digit-IsLine d = search (if-IsLine, line, refl) depth 30

decimal_digits-IsLine : (fuel n : ℕ) → IsLine (decimal_digits fuel n)
unfolding decimal_digits contains_char
decimal_digits-IsLine zero n = line refl refl
decimal_digits-IsLine (suc fuel) n =
    if-IsLine (ltb n 10) _ _ (digit-IsLine n)
      (append-IsLine _ _ (decimal_digits-IsLine fuel (n / 10)) (digit-IsLine (n % 10)))

decimal_of-IsLine : (n : ℤ) → IsLine (decimal_of n)
unfolding decimal contains_char
decimal_of-IsLine (pos n) = decimal_digits-IsLine 20 n
decimal_of-IsLine (negsuc n) =
    append-IsLine "-" _ (line refl refl) (decimal_digits-IsLine 20 (suc n))

permitopen-IsLine : (p : ℤ) → IsLine (permitopen p)
unfolding permitopen contains_char
permitopen-IsLine p =
    append-IsLine _ _ (line refl refl) (append-IsLine _ _ (decimal_of-IsLine p) (line refl refl))

-- the options that follow the first one
options-IsLine : (s : String) (ps : List ℤ) → IsLine s → IsLine (join "," (s ∷ map permitopen ps))
unfolding join contains_char
options-IsLine s [] h = h
options-IsLine s (p ∷ ps) h =
    append-IsLine s _ h (
      append-IsLine "," _ (line refl refl) (options-IsLine (permitopen p) ps (permitopen-IsLine p)))

managed_key-IsLine : (key : String) → IsLine (trim_space key) → IsLine (managed_key key)
unfolding contains_char
managed_key-IsLine key h =
    if-IsLine (has_suffix "oml-managed" (trim_space key)) _ _ h
      (append-IsLine _ _ h (line refl refl))

validate_pubkey-IsLine : (key : String) → validate_pubkey key ≡ ok tt → IsLine (trim_space key)
unfolding validate_pubkey
validate_pubkey-IsLine key e =
    let (_, there) = passed (trim_space key == "") _ _ _ e in
    let (single, _) =
      passed (contains_char 10 (trim_space key) || contains_char 13 (trim_space key)) _ _ _ there in
    line (ground (arith, single)) (ground (arith, single))

-- A key that passes its check makes one line of authorized_keys, whatever its comment is, and with
-- any ports.
pub authorized_keys_line-IsLine :
    (key : String) (ports : List ℤ)
    → validate_pubkey key ≡ ok tt
    → IsLine (authorized_keys_line key ports)
unfolding authorized_keys_line join contains_char
authorized_keys_line-IsLine key ports e =
    append-IsLine _ _
      (append-IsLine "restrict" _ (line refl refl) (
        append-IsLine "," _ (line refl refl)
          (options-IsLine "port-forwarding" ports (line refl refl))))
      (append-IsLine " " _ (line refl refl) (managed_key-IsLine key (validate_pubkey-IsLine key e)))
