-- ===== src/Admin/Reports.antt =====
-- What the administrators read and configure: the lists, metrics, audit log and tokens of
-- internal/server/admin/admin.go, and internal/server/admin/bark.go.
use oh_my_lan.Prelude.{
  ℕ, ◌+◌, ◌-◌, ◌/◌, String, Bool, true, false, not, ◌&&◌, ◌||◌, Option, none, some, List, [], ◌∷◌,
  ◌==◌, ltb, ℤ, pos_part, length, if◌then◌else◌,
}
use oh_my_lan.Exec.{Result, ok, err, pure, raise, gets, refuse_if, on_error, attempt, ◌>>=◌, ◌>>◌}
use oh_my_lan.Time.{second, seconds}
use oh_my_lan.Text.{trim_space}
use oh_my_lan.Store.{Value}
use oh_my_lan.Store.Devices.{list_devices_with_counts}
use oh_my_lan.Store.Services.{used_public_ports}
use oh_my_lan.Store.Forwards.{ForwardListItem, list_forwards_joined}
use oh_my_lan.Store.Audits.{load_counts, list_audit_recent, get_bark_settings, set_bark_settings}
use oh_my_lan.Server.{Fault, of_command, on_store, outside, audit}
use oh_my_lan.Enroll.{issue_token}
use oh_my_lan.Http.{
  Handler, respond, write_error, internal_error, decoded, no_body, devices_dto, joined_forwards_dto,
  metrics_dto, audit_dto, token_issued, info_dto, bark_dto, failure,
}

unfoldable pub handle_admin_info : Handler
handle_admin_info = do
  env ← gets (λ w. w.env)
  pure (respond 200 (info_dto env.fingerprint env.chisel_addr env.port_min env.port_max))

unfoldable pub handle_admin_list_devices : Handler
handle_admin_list_devices = do
  list ← on_error internal_error (on_store list_devices_with_counts)
  pure (respond 200 (devices_dto list))

-- A row whose service id is empty is left out.
unfoldable pub with_service : List ForwardListItem → List ForwardListItem
with_service [] = []
with_service (it ∷ items) =
    let rest = with_service items in if it.forward.remote_service_id == "" then rest else it ∷ rest

unfoldable pub handle_admin_list_forwards : Handler
unfolding with_service
handle_admin_list_forwards = do
  list ← on_error internal_error (on_store (list_forwards_joined ""))
  pure (respond 200 (joined_forwards_dto (with_service list)))

unfoldable pub handle_admin_issue_token : String → Option ℤ → Handler
handle_admin_issue_token actor body = do
  ttl ← decoded body
  issued ← on_error internal_error (issue_token (seconds ttl))
  on_error internal_error (audit actor "enroll_token.issue" issued.id [])
  pure (respond 201 (token_issued issued.id issued.token issued.expires_at))

abbrev pub count_of : Result Fault (List ℕ) → ℕ
count_of (ok ports) = length ports
count_of (err f) = 0

-- `started` is `StartedAt`.
unfoldable pub handle_admin_metrics : ℕ → Handler
handle_admin_metrics started = do
  counts ← on_error internal_error (on_store load_counts)
  used ← attempt (on_store used_public_ports)
  env ← gets (λ w. w.env)
  now ← gets (λ w. w.now)
  pure (
      respond 200 (
        metrics_dto counts (count_of used) (env.port_max + 1 - env.port_min)
          ((now - started) / second)))

-- The limit is what `fmt.Sscanf` read, or 0.
unfoldable pub handle_admin_list_audit : ℤ → Handler
handle_admin_list_audit limit = do
  entries ← on_error internal_error (on_store (list_audit_recent limit))
  pure (respond 200 (audit_dto entries))

-- bark.go

unfoldable pub handle_admin_bark_get : Handler
handle_admin_bark_get = do
  b ← on_error internal_error (on_store get_bark_settings)
  pure (respond 200 (bark_dto b.enabled b.bark_url b.offline_threshold_seconds))

pub record BarkRequest : Type 0 where
  pub enabled : Bool
  pub bark_url : String
  pub offline_threshold_seconds : ℤ

abbrev pub threshold : ℤ → ℕ
threshold n = let s = pos_part n in if ltb s 30 then 30 else s

-- the scheme and the host of a URL, as `net/url.Parse` has them
abbrev pub is_web_url : Option (String × String) → Bool
is_web_url none = false
is_web_url (some (scheme, host)) = (scheme == "http" || scheme == "https") && not (host == "")

unfoldable pub handle_admin_bark_put :
    (String → Option (String × String)) → String → Option BarkRequest → Handler
handle_admin_bark_put parse_url actor body = do
  req ← decoded body
  refuse_if (req.enabled && not (is_web_url (parse_url (trim_space req.bark_url))))
      (write_error 400 "bark URL 必须是 http(s)://host/path 形式")
  now ← gets (λ w. w.now)
  on_error internal_error (
      on_store (
        set_bark_settings
          (record {
            enabled = req.enabled;
            bark_url = trim_space req.bark_url;
            offline_threshold_seconds = threshold req.offline_threshold_seconds;
            updated_at = 0;
          })
          now))
  on_error internal_error (
      audit actor "bark.configure" "" (
        ("enabled", Value.flag req.enabled)
        ∷ ("threshold", Value.number (threshold req.offline_threshold_seconds))
        ∷ []))
  pure (respond 200 (bark_dto req.enabled req.bark_url (threshold req.offline_threshold_seconds)))

-- The push runs outside; the text of its error is not modelled.
unfoldable pub push_result : String → Result Fault (Unit {0}) → Handler
push_result actor (ok _) = do
  on_error internal_error (audit actor "bark.test" "" (("ok", Value.flag true) ∷ []))
  pure (respond 204 no_body)
push_result actor (err f) = do
  on_error internal_error
      (audit actor "bark.test" "" (("ok", Value.flag false) ∷ ("err", Value.text "") ∷ []))
  raise (respond 502 (failure f))

unfoldable pub handle_admin_bark_test : String → Handler
handle_admin_bark_test actor = do
  b ← on_error internal_error (on_store get_bark_settings)
  refuse_if (b.bark_url == "") (write_error 400 "bark URL 未配置")
  pushed ← attempt (outside of_command)
  push_result actor pushed
