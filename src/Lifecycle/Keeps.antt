-- ===== src/Lifecycle/Keeps.antt =====
-- The periodic tasks keep what the store's operations keep.
use oh_my_lan.Prelude.{ℤ, ℕ, String, Bool, List, [], ◌∷◌}
use oh_my_lan.Exec.{Result, ok, err}
use oh_my_lan.Exec.Keeps.{Keeps, Keeps-pure, Keeps-bind, Keeps-gets, Keeps-if, Keeps-attempt}
use oh_my_lan.Store.{Store, Device}
use oh_my_lan.Store.Services.{ServiceListItem}
use oh_my_lan.Store.Keeps.{StoreKeeps}
use oh_my_lan.Server.{Fault}
use oh_my_lan.Server.Keeps.{InStore, server_rules, Keeps-add_device, Keeps-on_store}
use oh_my_lan.Lifecycle.{
  add_devices, reload_chisel_users, delete_row, delete_account, delete_locked, ssh_account_round,
  session_round, mark_pushed, push_alert, clear_alert, alert_device, alert_devices,
  push_bark_alerts, offline_round, probe_services, probe_all,
}

module _ {P : Store → Type 0} (k : StoreKeeps P) where
  Keeps-add_devices : (ds : List Device) → Keeps (InStore P) (add_devices ds)
  unfolding add_devices
  Keeps-add_devices [] = Keeps-pure tt
  Keeps-add_devices (d ∷ ds) = Keeps-bind _ _ (Keeps-add_device d.id) (λ _. Keeps-add_devices ds)

  pub Keeps-reload : Keeps (InStore P) reload_chisel_users
  unfolding reload_chisel_users
  Keeps-reload = search (server_rules, Keeps-add_devices) depth 20

  Keeps-delete_row :
      (id : String) (r : Result Fault (Unit {0})) → Keeps (InStore P) (delete_row id r)
  unfolding delete_row
  Keeps-delete_row id (err f) = Keeps-pure tt
  Keeps-delete_row id (ok _) = search (server_rules, k.at_delete_device) depth 20

  Keeps-delete_account : Keeps (InStore P) delete_account
  unfolding delete_account
  Keeps-delete_account = search server_rules depth 20

  Keeps-delete_locked : (ds : List Device) → Keeps (InStore P) (delete_locked ds)
  unfolding delete_locked
  Keeps-delete_locked [] = Keeps-pure tt
  Keeps-delete_locked (d ∷ ds) =
      Keeps-bind _ _ (Keeps-attempt _ Keeps-delete_account)
        λ r. Keeps-bind _ _ (Keeps-delete_row d.id r) (λ _. Keeps-delete_locked ds)

  pub Keeps-ssh_account_round : Keeps (InStore P) ssh_account_round
  unfolding ssh_account_round
  Keeps-ssh_account_round = search (server_rules, Keeps-delete_locked) depth 20

  pub Keeps-session_round : Keeps (InStore P) session_round
  unfolding session_round
  Keeps-session_round = search (server_rules, k.at_expired_sessions) depth 20

  Keeps-mark_pushed :
      (id : String) (r : Result Fault (Unit {0})) → Keeps (InStore P) (mark_pushed id r)
  unfolding mark_pushed
  Keeps-mark_pushed id (err f) = Keeps-pure tt
  Keeps-mark_pushed id (ok _) = search (server_rules, k.at_alert) depth 20

  Keeps-push_alert : (id : String) → Keeps (InStore P) (push_alert id)
  unfolding push_alert
  Keeps-push_alert id = search (server_rules, Keeps-mark_pushed) depth 20

  Keeps-clear_alert : (id : String) → Keeps (InStore P) (clear_alert id)
  unfolding clear_alert
  Keeps-clear_alert id = search (server_rules, k.at_clear) depth 20

  Keeps-alert_device :
      (now : ℕ) (threshold : ℤ) (d : Device) → Keeps (InStore P) (alert_device now threshold d)
  unfolding alert_device
  Keeps-alert_device now threshold d =
      search (server_rules, Keeps-push_alert, Keeps-clear_alert) depth 20

  Keeps-alert_devices :
      (now : ℕ) (threshold : ℤ) (ds : List Device)
      → Keeps (InStore P) (alert_devices now threshold ds)
  unfolding alert_devices
  Keeps-alert_devices now threshold [] = Keeps-pure tt
  Keeps-alert_devices now threshold (d ∷ ds) =
      Keeps-bind _ _ (Keeps-alert_device now threshold d)
        (λ _. Keeps-alert_devices now threshold ds)

  Keeps-push_bark_alerts : Keeps (InStore P) push_bark_alerts
  unfolding push_bark_alerts
  Keeps-push_bark_alerts = search (server_rules, Keeps-alert_devices) depth 20

  pub Keeps-offline_round : Keeps (InStore P) offline_round
  unfolding offline_round
  Keeps-offline_round = search (server_rules, k.at_stale, Keeps-push_bark_alerts) depth 20

  Keeps-probe_services :
      (dial : ℕ → Bool) (items : List ServiceListItem)
      → Keeps (InStore P) (probe_services dial items)
  unfolding probe_services
  Keeps-probe_services dial [] = Keeps-pure tt
  Keeps-probe_services dial (it ∷ items) = Keeps-bind _ _ (Keeps-gets _) λ now.
      Keeps-if it.service.enabled _ _
        (Keeps-bind _ _ (Keeps-attempt _ (Keeps-on_store _ (k.at_probe _ _ now)))
          (λ _. Keeps-probe_services dial items))
        (Keeps-probe_services dial items)

  pub Keeps-probe_all : (dial : ℕ → Bool) → Keeps (InStore P) (probe_all dial)
  unfolding probe_all
  Keeps-probe_all dial = search (server_rules, Keeps-probe_services) depth 20
