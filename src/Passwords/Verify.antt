-- ===== src/Passwords/Verify.antt =====
-- The check of a password against the hash of one.
use oh_my_lan.Prelude.{ℕ, ◌≡◌, refl, String, some, [], ◌∷◌, if◌then◌else◌}
use oh_my_lan.Exec.{ok, err}
use oh_my_lan.Text.{contains_char}
use oh_my_lan.Text.Search.{join}
use oh_my_lan.Text.Split.{IsPlain, split-join}
use oh_my_lan.Passwords.{
  Library, mismatch, argon_time, argon_memory, argon_threads, argon_key_len, parse_phc, scan_field,
  verify_password, hash_password,
}

-- base64 reads back what it writes and writes no `$`, and a derived key has the length asked for
pub record IsLawful (L : Library) : Type 0 where
  pub decode-encode : (b : L.Bytes) → L.decode (L.encode b) ≡ some b
  pub encode-IsPlain : (b : L.Bytes) → IsPlain b'$' (L.encode b)
  pub size-id_key :
      (plain : String) (salt : L.Bytes) (time memory threads length : ℕ)
      → L.size (L.id_key plain salt time memory threads length) ≡ length

module _ (L : Library) (law : IsLawful L) where
  abbrev key_of : String → L.Bytes → L.Bytes
  key_of plain salt = L.id_key plain salt argon_time argon_memory argon_threads argon_key_len

  -- `VerifyPassword` accepts a text for the hash of a password exactly if argon2id, with the salt and
  -- the parameters of the hash, takes both to the same key.
  pub verify_password-hash_password :
      (plain other encoded : String) (salt : L.Bytes)
      → hash_password L plain (some salt) ≡ ok encoded
      → verify_password L other encoded
        ≡ (if L.same (key_of other salt) (key_of plain salt) then ok tt else err mismatch)
  unfolding hash_password verify_password parse_phc contains_char scan_field
  verify_password-hash_password plain other encoded salt h =
      let same : join "$" (
            ""
            ∷ "argon2id"
            ∷ "v=19"
            ∷ "m=65536,t=3,p=4"
            ∷ L.encode salt
            ∷ L.encode (key_of plain salt)
            ∷ [])
          ≡ encoded =
        cc h in
      rw (← same) (
        rw
          (split-join b'$' _ ""
            ("argon2id"
              ∷ "v=19"
              ∷ "m=65536,t=3,p=4"
              ∷ L.encode salt
              ∷ L.encode (key_of plain salt)
              ∷ [])
            refl
            (refl, (refl, (refl, (refl, (law.encode-IsPlain salt, (law.encode-IsPlain _, tt)))))))
          (rw
            (
              law.decode-encode salt,
              law.decode-encode (key_of plain salt),
              law.size-id_key plain salt argon_time argon_memory argon_threads argon_key_len,
            )
            refl))
