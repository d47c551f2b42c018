-- ===== src/Daemon/Once.antt =====
-- `runOnce` of internal/client/daemon.go: the bootstrap, the tunnel, and the race of the tunnel, the
-- reload watch and the context.
use oh_my_lan.Prelude.{String, Bool, List, if◌then◌else◌}
use oh_my_lan.Exec.{Result, ok, err}
use oh_my_lan.Http.{BootstrapResponse}
use oh_my_lan.Client.{
  ClientError, no_credentials, unreachable, bad_json, unauthorized, server_error,
}
use oh_my_lan.Client.State.{DeviceState}
use oh_my_lan.Tunnel.{SpecError, new_client}
use oh_my_lan.Daemon.{
  Outcome, StopReason, stop_reload, stop_unauthorized, boot_to_specs, normalize_chisel_url,
}

-- What happens to a tunnel once its specs are checked: chisel does not take them, `Run` returns
-- first (with no error, that of the canceled context, or another one), the watch sends a reason
-- first, or the context ends first.
pub data Race : Type 0 where
  not_built tunnel_closed tunnel_canceled tunnel_failed context_ended : Race
  watch_sent : StopReason → Race

abbrev pub stopped : StopReason → Outcome
stopped stop_unauthorized = Outcome.unauthorized
stopped stop_reload = Outcome.reload

abbrev pub raced : Race → Outcome
raced Race.not_built = Outcome.failed
raced Race.tunnel_closed = Outcome.returned
raced Race.tunnel_canceled = Outcome.canceled
raced Race.tunnel_failed = Outcome.failed
raced Race.context_ended = Outcome.canceled
raced (Race.watch_sent reason) = stopped reason

abbrev pub started : Result SpecError (List String) → Race → Outcome
started (err e) race = Outcome.failed
started (ok specs) race = raced race

-- `quit` says that the request of the bootstrap failed since the context had ended.
abbrev pub no_bootstrap : Bool → ClientError → Outcome
no_bootstrap quit (unauthorized message) = Outcome.unauthorized
no_bootstrap quit unreachable = if quit then Outcome.canceled else Outcome.failed
no_bootstrap quit no_credentials = Outcome.failed
no_bootstrap quit bad_json = Outcome.failed
no_bootstrap quit (server_error status message) = Outcome.failed

abbrev pub tunnel_specs : DeviceState → BootstrapResponse → Result SpecError (List String)
tunnel_specs st boot =
    let (remotes, locals) = boot_to_specs boot in
    new_client (normalize_chisel_url boot.chisel_addr) st.device_id st.tunnel_secret remotes locals

unfoldable pub run_once : Bool → DeviceState → Result ClientError BootstrapResponse → Race → Outcome
unfolding new_client boot_to_specs normalize_chisel_url
run_once quit st (err e) race = no_bootstrap quit e
run_once quit st (ok boot) race = started (tunnel_specs st boot) race
