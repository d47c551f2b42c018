-- ===== src/Lifecycle.antt =====
-- internal/server/lifecycle.go, internal/server/bark.go and internal/server/prober/prober.go: what
-- the server does when it starts, and one round of each of its periodic tasks. The goroutines that
-- a round starts run one after the other, in the order in which they are started.
pub mod Keeps
use oh_my_lan.Prelude.{
  ℕ, ◌+◌, ◌-◌, ◌*◌, String, Bool, true, false, not, ◌&&◌, ◌||◌, Option, none, some, List, [], ◌∷◌,
  ◌==◌, ltb, suc, ℤ, pos, negsuc, if◌then◌else◌,
}
use oh_my_lan.Exec.{
  Result, ok, err, Exec, pure, raise, gets, refuse_if, on_error, attempt, ◌>>=◌, ◌>>◌,
}
use oh_my_lan.Time.{second, seconds, hour}
use oh_my_lan.Store.{Device, BarkSettings}
use oh_my_lan.Store.Devices.{
  list_devices, mark_stale_devices_offline, list_ssh_locked_before, delete_device,
}
use oh_my_lan.Store.Services.{ServiceListItem, list_services_joined, record_service_probe}
use oh_my_lan.Store.Logins.{delete_expired_sessions}
use oh_my_lan.Store.Audits.{
  get_bark_settings, is_device_alerted, clear_device_alert, mark_device_alerted,
}
use oh_my_lan.Server.{Server, Fault, of_command, on_store, outside, add_device}

-- the loop of `reloadChiselUsers`
unfoldable pub add_devices : List Device → Exec Server Fault (Unit {0})
add_devices [] = pure tt
add_devices (d ∷ ds) = do add_device d.id; add_devices ds

unfoldable pub reload_chisel_users : Exec Server Fault (Unit {0})
unfolding add_devices
reload_chisel_users = do ds ← on_store list_devices; add_devices ds

-- The account goes first; if it does not, the row stays.
unfoldable pub delete_row : String → Result Fault (Unit {0}) → Exec Server Fault (Unit {0})
delete_row id (err f) = pure tt
delete_row id (ok _) = do attempt {E = Fault} (on_store (delete_device id)); pure tt

-- `SSHAcct.Delete`, if accounts are managed
unfoldable pub delete_account : Exec Server Fault (Unit {0})
delete_account = do
  managed ← gets (λ w. w.env.ssh_accounts)
  if managed then outside of_command else pure tt

unfoldable pub delete_locked : List Device → Exec Server Fault (Unit {0})
unfolding delete_account
delete_locked [] = pure tt
delete_locked (d ∷ ds) = do
  deleted ← attempt delete_account
  delete_row d.id deleted
  delete_locked ds

-- `SSHGracePeriod`
abbrev pub ssh_grace_period : ℕ
ssh_grace_period = 7 * (24 * hour)

unfoldable pub ssh_account_round : Exec Server Fault (Unit {0})
unfolding delete_locked
ssh_account_round = do
  now ← gets (λ w. w.now)
  ds ← on_store (list_ssh_locked_before (now - ssh_grace_period))
  delete_locked ds

unfoldable pub session_round : Exec Server Fault ℕ
session_round = do now ← gets (λ w. w.now); on_store (delete_expired_sessions now)

-- bark.go

-- `now.Sub(lastSeen) > threshold`, where the threshold may have wrapped to a negative one
abbrev pub longer_ago : ℕ → ℤ → ℕ → Bool
longer_ago now (pos threshold) seen = ltb threshold (now - seen)
longer_ago now (negsuc threshold) seen = ltb seen (now + suc threshold)

abbrev pub gone_for : ℕ → ℤ → Option ℕ → Bool
gone_for now threshold none = true
gone_for now threshold (some seen) = longer_ago now threshold seen

abbrev pub alert_state : Result Fault Bool → Bool
alert_state (ok b) = b
alert_state (err f) = false

-- the goroutine: no mark if the push fails
unfoldable pub mark_pushed : String → Result Fault (Unit {0}) → Exec Server Fault (Unit {0})
mark_pushed id (err f) = pure tt
mark_pushed id (ok _) = do
  now ← gets (λ w. w.now)
  attempt {E = Fault} (on_store (mark_device_alerted id now))
  pure tt

unfoldable pub push_alert : String → Exec Server Fault (Unit {0})
push_alert id = do pushed ← attempt (outside of_command); mark_pushed id pushed

unfoldable pub clear_alert : String → Exec Server Fault (Unit {0})
clear_alert id = do attempt {E = Fault} (on_store (clear_device_alert id)); pure tt

unfoldable pub alert_device : ℕ → ℤ → Device → Exec Server Fault (Unit {0})
unfolding push_alert clear_alert
alert_device now threshold d = do
  state ← attempt (on_store (is_device_alerted d.id))
  if not (gone_for now threshold d.last_seen_at)
      then (if alert_state state then clear_alert d.id else pure tt)
      else if alert_state state
      then pure tt
      else push_alert d.id

unfoldable pub alert_devices : ℕ → ℤ → List Device → Exec Server Fault (Unit {0})
unfolding alert_device
alert_devices now threshold [] = pure tt
alert_devices now threshold (d ∷ ds) = do
  alert_device now threshold d
  alert_devices now threshold ds

abbrev pub is_silent : BarkSettings → Bool
is_silent b = not b.enabled || b.bark_url == ""

-- An error of the store ends it, as in `maybePushBarkAlerts`.
unfoldable pub push_bark_alerts : Exec Server Fault (Unit {0})
unfolding alert_devices seconds
push_bark_alerts = do
  b ← on_store get_bark_settings
  if is_silent b then pure tt else (do
    ds ← on_store list_devices
    now ← gets (λ w. w.now)
    alert_devices now (seconds (pos b.offline_threshold_seconds)) ds)

-- `OfflineThreshold`
abbrev pub offline_threshold : ℕ
offline_threshold = 90 * second

unfoldable pub offline_round : Exec Server Fault (Unit {0})
unfolding push_bark_alerts
offline_round = do
  now ← gets (λ w. w.now)
  on_store (mark_stale_devices_offline (now - offline_threshold))
  push_bark_alerts

-- prober.go; `dial` is what `ProbeTCPPort` tells of a port.

unfoldable pub probe_services : (ℕ → Bool) → List ServiceListItem → Exec Server Fault (Unit {0})
probe_services dial [] = pure tt
probe_services dial (it ∷ items) = do
  now ← gets (λ w. w.now)
  if it.service.enabled
      then (do
        attempt {E = Fault}
            (on_store (record_service_probe it.service.id (dial it.service.public_port) now))
        probe_services dial items)
      else probe_services dial items

unfoldable pub probe_all : (ℕ → Bool) → Exec Server Fault (Unit {0})
unfolding probe_services
probe_all dial = do list ← on_store (list_services_joined ""); probe_services dial list
