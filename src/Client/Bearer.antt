-- ===== src/Client/Bearer.antt =====
-- The Authorization header, from the client that writes it to the server that reads it.
use Prim.Native.Char.{Char, code}
use Prim.Native.String.{◌++◌}
use oh_my_lan.Prelude.{ℕ, ◌≡◌, refl, ap, String, true, false, ◌||◌, ◌==◌, some, arith, nat_eq}
use Prim.Native.String.append
use oh_my_lan.Text.{cut, strip_prefix, contains_char}
use oh_my_lan.Auth.{credentials}
use oh_my_lan.Client.{ApiClient, bearer}

pub strip_prefix-append : (p s : String) → strip_prefix p (p ++ s) ≡ some s
unfolding strip_prefix
strip_prefix-append String.[] s = ap some (append.nil s)
strip_prefix-append (String.◌∷◌ c p) s =
    rw (append.cons c p s) (ground (arith, strip_prefix-append p s))

-- The first separator parts the text where it stands.
pub cut-append :
    (sep : ℕ) (s t rest : String)
    → contains_char sep s ≡ false
    → cut sep t ≡ (String.[], some rest)
    → cut sep (s ++ t) ≡ (s, some rest)
unfolding cut contains_char
cut-append sep String.[] t rest h e = rw (append.nil t) e
cut-append sep (String.◌∷◌ c s) t rest h e =
    rw (append.cons c s t) (rw (cut-append sep s t rest (ground arith) e) (ground arith))

cut_first :
    (sep : ℕ) (d : Char) (s : String)
    → nat_eq (code d) sep ≡ true
    → cut sep (String.◌∷◌ d String.[] ++ s) ≡ (String.[], some s)
unfolding cut
cut_first sep d s e = rw (append.cons d String.[] s, append.nil s) (ground (arith, e))

-- What the client sends as its credentials, the server reads: the id up to the first dot, and the
-- secret, if the id has no dot and neither is empty.
pub credentials-bearer :
    (c : ApiClient)
    → contains_char b'.' c.device_id ≡ false
    → c.device_id == "" || c.secret == "" ≡ false
    → credentials (bearer c) ≡ some (c.device_id, c.secret)
unfolding credentials bearer
credentials-bearer c plain full =
    rw (strip_prefix-append "Bearer " (c.device_id ++ "." ++ c.secret)) (
      rw
        (cut-append b'.' c.device_id ("." ++ c.secret) c.secret plain
          (cut_first b'.' _ c.secret refl))
        (ground arith))
