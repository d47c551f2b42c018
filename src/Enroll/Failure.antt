-- ===== src/Enroll/Failure.antt =====
-- Enrollments that fail, against the tables before.
use oh_my_lan.Prelude.{ℕ, ◌≡◌, refl, String, List, [], ◌∷◌, first}
use oh_my_lan.Exec.{Result, ok, err}
use oh_my_lan.Exec.Undoes.{
  Undoes, Reads, Undoes-read, Undoes-last, Undoes-on_error, Reads-gets, Reads-refuse_if,
  Reads-on_error,
}
use oh_my_lan.Store.{Store, Device, Error}
use oh_my_lan.Store.Tokens.{
  consume_enrollment_token, consume_body, roll_back, get_enrollment_token_by_hash, hash_is,
}
use oh_my_lan.Store.Reads.{
  SameTables, SameStore, SameStore-IsPreorder, Reads-lookup, Reads-on_store, Undoes-on_store,
}
use oh_my_lan.Server.{Server, random_text, draw}
use oh_my_lan.Enroll.{enroll_device}

get_token-Reads : (hash : String) → Reads SameTables (get_enrollment_token_by_hash hash)
unfolding get_enrollment_token_by_hash
get_token-Reads hash = Reads-lookup (λ s. first (hash_is hash) s.tokens)

consume-Undoes :
    (hash : String) (d : Device) (now : ℕ) → Undoes SameTables (consume_enrollment_token hash d now)
unfolding consume_enrollment_token
consume-Undoes hash d now = record { run = λ s x e. rolled s (consume_body hash d now s) x e }
  where
    rolled :
        (s : Store) (r : Result Error (Unit {0}) × Store) (x : Error)
        → (roll_back s r).0 ≡ err x
        → SameTables s (roll_back s r).1
    rolled s (ok tt, t) x e = absurd (cc e)
    rolled s (err y, t) x e = refl

drawn_same : (w : Server) (l : List String) → SameStore w (draw w l).1
drawn_same w [] = refl
drawn_same w (x ∷ l) = refl

Reads-random_text : Reads SameStore random_text
unfolding random_text
Reads-random_text = record { run = λ w. drawn_same w w.entropy }

-- Whatever fails, an enrollment that returns an error leaves every table as it was.
pub enroll_device-Undoes : (raw name : String) → Undoes SameStore (enroll_device raw name)
unfolding enroll_device
enroll_device-Undoes raw name =
    search
      (
        Undoes-read SameStore-IsPreorder,
        Undoes-last SameStore-IsPreorder,
        Undoes-on_error,
        Reads-gets SameStore-IsPreorder,
        Reads-refuse_if SameStore-IsPreorder,
        Reads-on_error,
        Reads-on_store,
        Undoes-on_store,
        Reads-random_text,
        get_token-Reads,
        consume-Undoes,
      )
      depth 30
