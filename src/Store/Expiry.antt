-- ===== src/Store/Expiry.antt =====
-- How long after its end a session is still taken.
use oh_my_lan.Prelude.{
  ℕ, ◌+◌, ◌<◌, ◌≡◌, String, true, ◌&&◌, ◌==◌, eq_iff, first, first-passes, arith,
}
use oh_my_lan.Exec.{ok}
use oh_my_lan.Time.{second, text_lt}
use oh_my_lan.Time.Order.{text_lt-near}
use oh_my_lan.Store.{Store, Session}
use oh_my_lan.Store.Logins.{get_active_session_by_hash, session_hash_is}
use oh_my_lan.Store.Reads.{lookup-ok}

-- A session that is found for a hash is of that hash, and has not ended, or ended less than a second
-- ago.
pub get_active_session_by_hash-near :
    (hash : String) (now : ℕ) (s : Store) (e : Session)
    → (get_active_session_by_hash hash now s).0 ≡ ok e
    → (e.token_hash ≡ hash) × (now < e.expires_at + second)
unfolding get_active_session_by_hash
get_active_session_by_hash-near hash now s e h =
    let is_active = λ (x : Session). session_hash_is hash x && text_lt now x.expires_at in
    let (k, row) = lookup-ok (λ (s : Store). first is_active s.sessions) s e h in
    let passes = first-passes is_active s.sessions e row in
    let same : e.token_hash == hash ≡ true = ground (arith, passes) in
    let later : text_lt now e.expires_at ≡ true = ground (arith, passes) in
    ((eq_iff e.token_hash hash).0 same, text_lt-near now e.expires_at later)
