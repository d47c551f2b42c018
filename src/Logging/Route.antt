-- ===== src/Logging/Route.antt =====
-- internal/server/admin/logs.go: the last log entries, for the administrators.
use oh_my_lan.Prelude.{
  ℕ, refl, ◌-◌, ◌≤◌, ◌≡◌, ap, ◌∙◌, String, Option, none, some, List, [], ◌==◌, ltb, min, drop,
  length, ℤ, pos, pos_part, nat_eq, arith, if◌then◌else◌,
}
use oh_my_lan.Text.{atoi}
use oh_my_lan.Text.Trim.{not_empty}
use oh_my_lan.Logging.RingBuffer.{
  LogEntry, RingBuffer, new_ring_buffer, snapshot, add_all, clamp_limit,
}
use oh_my_lan.Logging.RingBuffer.History.{snapshot-add_all}

abbrev positive_limit : ℕ → ℕ
positive_limit n = if nat_eq n 0 then 200 else if ltb 1000 n then 1000 else n

abbrev parsed_limit : Option ℤ → ℕ
parsed_limit none = 200
parsed_limit (some n) = positive_limit (pos_part n)

-- the query parameter `limit`: 200 if it is not a positive number, and 1000 at most
unfoldable pub log_limit : String → ℕ
unfolding atoi
log_limit v = if v == "" then 200 else parsed_limit (atoi v)

-- `HandleAdminLogs`: the entries of its answer
unfoldable pub handle_admin_logs : Option RingBuffer → String → List LogEntry
unfolding log_limit
handle_admin_logs none v = []
handle_admin_logs (some b) v = snapshot (pos (log_limit v)) b

-- what the answer comes to for any limit
shown_of :
    (es : List LogEntry) (v : String) (n : ℕ)
    → log_limit v ≡ n
    → 1 ≤ n
    → n ≤ 1000
    → handle_admin_logs (some (add_all es (new_ring_buffer (pos 1000)))) v
      ≡ drop (length es - min n (length es)) es
unfolding handle_admin_logs
shown_of es v n e least most =
    let shown : clamp_limit (pos n) (min 1000 (length es)) ≡ min n (length es) =
      ground (arith, least, most) in
    rw e (snapshot-add_all (pos 1000) (pos n) es ∙ ap (λ (k : ℕ). drop (length es - k) es) shown)

log_limit-asked : (v : String) (n : ℕ) → atoi v ≡ some (pos n) → 1 ≤ n → log_limit v ≡ min n 1000
unfolding log_limit atoi
log_limit-asked String.[] n asked least = absurd (cc asked)
log_limit-asked (String.◌∷◌ c s) n asked least =
    rw (not_empty (String.◌∷◌ c s) refl, asked) (ground (arith, least))

log_limit-default : (v : String) → atoi v ≡ none → log_limit v ≡ 200
unfolding log_limit
log_limit-default v e = rw e (ground arith)

-- With the buffer of a thousand entries that the server starts with, the answer of the logs route
-- is the last of all entries logged since, oldest first: as many as the number that the query asks
-- for, if that is a positive one, but a thousand at most; 200 if the query is no number that Atoi
-- reads; and never more than there are.
pub handle_admin_logs-add_all :
    (es : List LogEntry) (v other : String) (n : ℕ)
    → atoi v ≡ some (pos n)
    → 1 ≤ n
    → atoi other ≡ none
    → (handle_admin_logs (some (add_all es (new_ring_buffer (pos 1000)))) v
        ≡ drop (length es - min (min n 1000) (length es)) es)
      × (handle_admin_logs (some (add_all es (new_ring_buffer (pos 1000)))) other
          ≡ drop (length es - min 200 (length es)) es)
handle_admin_logs-add_all es v other n asked least absent = (
  shown_of es v _ (log_limit-asked v n asked least) (ground (arith, least)) (ground arith),
  shown_of es other 200 (log_limit-default other absent) (omega arith) (omega arith),
)
