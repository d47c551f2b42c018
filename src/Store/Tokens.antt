-- ===== src/Store/Tokens.antt =====
-- internal/store/token.go
use oh_my_lan.Prelude.{
  ℕ, String, Bool, ◌||◌, none, some, ◌∷◌, ◌==◌, exists, first, update, if◌then◌else◌,
}
use oh_my_lan.Exec.{Result, ok, err, Exec, gets, modify, ◌>>=◌, ◌>>◌}
use oh_my_lan.Store.{Device, EnrollmentToken, Store, Error, not_found, unique, statement, found}
use oh_my_lan.Store.Devices.{insert_device, status_or_default}

abbrev pub token_clash : EnrollmentToken → EnrollmentToken → Bool
token_clash t u = t.id == u.id || t.token_hash == u.token_hash

unfoldable pub insert_token : EnrollmentToken → Exec Store Error (Unit {0})
insert_token t s =
    if exists (token_clash t) s.tokens
    then (err unique, s)
    else (ok tt, record s { tokens = t ∷ s.tokens })

unfoldable pub create_enrollment_token : EnrollmentToken → Exec Store Error (Unit {0})
unfolding insert_token
create_enrollment_token t = do
  statement
  insert_token (record t { used_at = none; used_by_device_id = none })

abbrev pub hash_is : String → EnrollmentToken → Bool
hash_is hash t = t.token_hash == hash

unfoldable pub get_enrollment_token_by_hash : String → Exec Store Error EnrollmentToken
unfolding found
get_enrollment_token_by_hash hash = do
  statement
  row ← gets (λ s. first (hash_is hash) s.tokens)
  found row

abbrev pub token_is : String → EnrollmentToken → Bool
token_is id t = t.id == id

abbrev pub mark_used : ℕ → String → EnrollmentToken → EnrollmentToken
mark_used now device_id t = record t { used_at = some now; used_by_device_id = some device_id }

-- `usedAt.Valid` is an error.
unfoldable pub refuse_used : EnrollmentToken → Exec Store Error (Unit {0})
refuse_used t s = elim t.used_at [ none ↦ (ok tt, s) | some _ ↦ (err not_found, s) ]

-- BEGIN, the SELECT, the INSERT, the UPDATE and COMMIT are one call of the driver each.
unfoldable pub consume_body : String → Device → ℕ → Exec Store Error (Unit {0})
unfolding refuse_used
consume_body hash dev now = do
  statement
  t ← get_enrollment_token_by_hash hash
  refuse_used t
  statement
  insert_device (record dev {
    status = status_or_default dev.status;
    last_seen_at = none;
    ssh_pubkey = "";
    ssh_username = "";
    ssh_locked_at = none;
  })
  statement
  modify (λ s. record s { tokens = update (token_is t.id) (mark_used now dev.id) s.tokens })
  statement

-- ROLLBACK: all rows as they were; what the driver did in between stays done.
abbrev pub roll_back : Store → Result Error (Unit {0}) × Store → Result Error (Unit {0}) × Store
roll_back before (ok _, s) = (ok tt, s)
roll_back before (err e, s) = (err e, record before { faults = s.faults })

-- `now` is the time that the function reads for `used_at`.
unfoldable pub consume_enrollment_token : String → Device → ℕ → Exec Store Error (Unit {0})
unfolding consume_body
consume_enrollment_token hash dev now s = roll_back s (consume_body hash dev now s)
