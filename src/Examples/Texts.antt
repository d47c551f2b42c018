-- ===== src/Examples/Texts.antt =====
-- Passwords with a library whose bytes are their number, log entries, processes, and escaped bytes.
use Prim.Native.String.{◌++◌, len}
use text.Mathlib.TextPositions.{len-append}
use oh_my_lan.Prelude.{
  ℕ, zero, suc, ◌-◌, ◌≡◌, refl, ap, ◌∙◌, String, true, false, some, List, [], ◌∷◌, All, nat_eq,
  arith, ℤ, pos, drop, length, min, if◌then◌else◌,
}
use oh_my_lan.Exec.{ok, err}
use oh_my_lan.Text.{contains_char, atoi}
use oh_my_lan.Text.Trim.{contains_char-append}
use oh_my_lan.Passwords.{Library, mismatch, hash_password, verify_password}
use oh_my_lan.Passwords.Verify.{IsLawful, verify_password-hash_password}
use oh_my_lan.Logging.RingBuffer.{LogEntry, new_ring_buffer, add_all}
use oh_my_lan.Logging.Handlers.{BufferHandler, LogRecord, handle, with_attrs, handle-with_attrs}
use oh_my_lan.Logging.Route.{handle_admin_logs, handle_admin_logs-add_all}
use oh_my_lan.Command.{Process, term, kill, target, preempt_old_daemon, kill_by_config}
use oh_my_lan.Command.Targets.{
  IsOldDaemon, IsOther, preempt_old_daemon-IsOldDaemon, kill_by_config-IsOther,
}
use oh_my_lan.Api.Escape.{url_path_escape, unescape, unescape-url_path_escape}
use oh_my_lan.Examples.{entry}

abbrev unary : ℕ → String
unary zero = ""
unary (suc n) = "a" ++ unary n

abbrev numbers : Library
numbers = record {
  Bytes = ℕ;
  encode = unary;
  decode = λ s. some (len s);
  size = λ n. n;
  same = nat_eq;
  id_key = λ plain salt time memory threads length. length;
}

len-unary : (n : ℕ) → len (unary n) ≡ n
len-unary zero = refl
len-unary (suc n) =
    let one : len "a" ≡ 1 = refl in omega (arith, len-append "a" (unary n), len-unary n, one)

unary-plain : (n : ℕ) → contains_char b'$' (unary n) ≡ false
unfolding contains_char
unary-plain zero = refl
unary-plain (suc n) = contains_char-append b'$' "a" (unary n) ∙ rw (unary-plain n) refl

numbers-IsLawful : IsLawful numbers
numbers-IsLawful = record {
  decode-encode = λ n. ap some (len-unary n);
  encode-IsPlain = unary-plain;
  size-id_key = λ plain salt time memory threads length. refl;
}

verify_password-hash_password_example :
    verify_password numbers "guess"
      "$argon2id$v=19$m=65536,t=3,p=4$aa$aaaaaaaaaaaaaaaaaaaaaaaaaaaaaaaa"
    ≡ (if nat_eq 32 32 then ok tt else err mismatch)
unfolding hash_password
verify_password-hash_password_example =
    verify_password-hash_password numbers numbers-IsLawful "secret" "guess"
      "$argon2id$v=19$m=65536,t=3,p=4$aa$aaaaaaaaaaaaaaaaaaaaaaaaaaaaaaaa" 2 refl

abbrev record_of : LogRecord
record_of = record { time = 1; level = pos 0; message = "m"; attrs = ("b", "2") ∷ [] }

abbrev handler : BufferHandler
handler = record { level = pos 0; preformatted = "" }

handle-with_attrs_example :
    handle (λ l. "INFO") (with_attrs (("a", "1") ∷ []) handler) record_of (new_ring_buffer (pos 3))
    ≡ handle
        (λ l. "INFO")
        handler
        (record record_of { attrs = ("a", "1") ∷ ("b", "2") ∷ [] })
        (new_ring_buffer (pos 3))
handle-with_attrs_example =
    handle-with_attrs (λ l. "INFO") handler (("a", "1") ∷ []) record_of (new_ring_buffer (pos 3))

abbrev logged : List LogEntry
logged = entry "a" ∷ entry "b" ∷ entry "c" ∷ []

handle_admin_logs-add_all_example :
    (handle_admin_logs (some (add_all logged (new_ring_buffer (pos 1000)))) "2"
      ≡ drop (length logged - min (min 2 1000) (length logged)) logged)
    × (handle_admin_logs (some (add_all logged (new_ring_buffer (pos 1000)))) "many"
        ≡ drop (length logged - min 200 (length logged)) logged)
unfolding atoi
handle_admin_logs-add_all_example =
    handle_admin_logs-add_all logged "2" "many" 2 refl (omega arith) refl

abbrev running : ℤ → Process
running p = record {
  alive = true;
  looks_like_omlctl = true;
  term_sent = true;
  alive_after = true;
  polls = true ∷ false ∷ [];
}

preempt_old_daemon-IsOldDaemon_example :
    All
      (λ s. IsOldDaemon running (pos 7) (target s))
      (preempt_old_daemon running (pos 7) (some "12\n"))
preempt_old_daemon-IsOldDaemon_example =
    preempt_old_daemon-IsOldDaemon running (pos 7) (some "12\n")

abbrev listing : String
listing = "  PID COMMAND\n    1 init\n   12 omlctl --config c.yaml daemon start\n"

kill_by_config-IsOther_example :
    All
      (λ s. IsOther (pos 7) (target s))
      (kill_by_config (some listing) "c.yaml" "/etc/c.yaml" (pos 7) (λ p. true))
kill_by_config-IsOther_example =
    kill_by_config-IsOther (some listing) "c.yaml" "/etc/c.yaml" (pos 7) (λ p. true)

-- A daemon that ends in time is not killed.
taken_over_in_time : preempt_old_daemon running (pos 7) (some "12\n") ≡ term (pos 12) ∷ []
unfolding preempt_old_daemon
taken_over_in_time = refl

-- init and what is no daemon are left alone.
kill_listing :
    kill_by_config (some listing) "c.yaml" "/etc/c.yaml" (pos 7) (λ p. true)
    ≡ term (pos 12) ∷ kill (pos 12) ∷ []
unfolding kill_by_config
kill_listing = refl

escaped : url_path_escape (32 ∷ 65 ∷ []) ≡ b'%' ∷ b'2' ∷ b'0' ∷ b'A' ∷ []
unfolding url_path_escape
escaped = refl

unescape-url_path_escape_example :
    unescape (url_path_escape (32 ∷ 65 ∷ 37 ∷ [])) ≡ some (32 ∷ 65 ∷ 37 ∷ [])
unescape-url_path_escape_example =
    unescape-url_path_escape (32 ∷ 65 ∷ 37 ∷ []) (omega arith, (omega arith, (omega arith, tt)))
