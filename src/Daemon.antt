-- ===== src/Daemon.antt =====
-- internal/client/daemon.go: the loop of the client's daemon. A round is what one call of `runOnce`
-- comes to, with what the context says before it and during the wait after it; a run is observed
-- for as many rounds as are given.
pub mod Backoff
pub mod Reload
pub mod Once
pub mod Revoked
use Prim.Native.String.{◌++◌}
use oh_my_lan.Prelude.{
  ℕ, ◌*◌, String, Bool, true, false, ◌||◌, Option, none, some, List, [], ◌∷◌, ◌==◌, ltb, map,
  sort_by, pos, if◌then◌else◌,
}
use oh_my_lan.Time.{second}
use oh_my_lan.Text.{decimal, strip_prefix}
use oh_my_lan.Text.Search.{join}
use oh_my_lan.Http.{BootstrapResponse, RemoteEntry, LocalEntry}
use oh_my_lan.Tunnel.{Remote, Local, decimal_of}

pub data Outcome : Type 0 where
  canceled unauthorized reload failed returned : Outcome

pub record Round : Type 0 where
  -- `ctx.Err() != nil` at the head of the loop
  pub done_before : Bool
  pub outcome : Outcome
  -- `<-ctx.Done()` comes before the end of the wait
  pub done_waiting : Bool

-- how `Run` returns
pub data Exit : Type 0 where
  context_done device_revoked : Exit

-- the time that a round waits, if it does, and how the run ends: it has not after all rounds
pub record Run : Type 0 where
  pub waits : List ℕ
  pub exit : Option Exit

abbrev pub max_backoff : ℕ
max_backoff = 60 * second

abbrev pub next_backoff : ℕ → ℕ
next_backoff b = if ltb max_backoff (b * 2) then max_backoff else b * 2

abbrev pub ends : Exit → Run
ends e = record { waits = []; exit = some e }

abbrev pub waited : ℕ → Run → Run
waited b r = record { waits = b ∷ r.waits; exit = r.exit }

-- What the round does, and the rest of the run after the wait (`later`) or at once (`again`).
abbrev pub step : ℕ → Outcome → Bool → Run → Run → Run
step b canceled quit later again = ends context_done
step b unauthorized quit later again = ends device_revoked
step b reload quit later again = again
step b failed true later again = ends context_done
step b failed false later again = waited b later
step b returned quit later again = again

unfoldable pub run_loop : ℕ → List Round → Run
run_loop b [] = record { waits = []; exit = none }
run_loop b (r ∷ rounds) =
    let later = run_loop (next_backoff b) rounds in
    let again = run_loop second rounds in
    if r.done_before then ends context_done else step b r.outcome r.done_waiting later again

unfoldable pub run : List Round → Run
unfolding run_loop
run rounds = run_loop second rounds

abbrev pub to_remote : RemoteEntry → Remote
to_remote r = record {
  public_port = pos r.public_port;
  local_addr = r.local_addr;
  protocol = r.protocol;
  bind_local = r.bind_local;
}

abbrev pub to_local : LocalEntry → Local
to_local l = record {
  local_port = pos l.local_port;
  remote_public_port = pos l.remote_public_port;
  protocol = l.protocol;
}

unfoldable pub boot_to_specs : BootstrapResponse → List Remote × List Local
boot_to_specs boot = (map to_remote boot.remotes, map to_local boot.locals)

unfoldable pub remote_key : Remote → String
unfolding decimal
remote_key r = "R|" ++ decimal_of r.public_port ++ "|" ++ r.protocol ++ "|" ++ r.local_addr

unfoldable pub local_key : Local → String
unfolding decimal
local_key l =
    "L|" ++ decimal_of l.local_port ++ "|" ++ decimal_of l.remote_public_port ++ "|" ++ l.protocol

-- `lt` is the order of `sort.Strings`, and `sum` the hex text of SHA-256.
unfoldable pub hash_specs :
    (String → String → Bool) → (String → String) → List Remote → List Local → String
unfolding remote_key local_key join
hash_specs lt sum rs ls = sum (
    join "\n" (sort_by lt (map remote_key rs))
    ++ "\n--\n"
    ++ join "\n" (sort_by lt (map local_key ls)))

-- one poll of `watchReload`: what the bootstrap request came to
pub data Poll : Type 0 where
  refused lost : Poll
  got : BootstrapResponse → Poll

pub data StopReason : Type 0 where
  stop_reload stop_unauthorized : StopReason

abbrev pub poll_step :
    (BootstrapResponse → String) → String → Poll → Option StopReason → Option StopReason
poll_step hash baseline refused later = some stop_unauthorized
poll_step hash baseline lost later = later
poll_step hash baseline (got boot) later = if hash boot == baseline then later else some stop_reload

-- The polls until the context is done, and the reason that the watch sends, if any.
unfoldable pub watch_reload : (BootstrapResponse → String) → String → List Poll → Option StopReason
watch_reload hash baseline [] = none
watch_reload hash baseline (p ∷ polls) =
    poll_step hash baseline p (watch_reload hash baseline polls)

abbrev pub is_http : Option String → Bool
is_http none = false
is_http (some rest) = true

unfoldable pub normalize_chisel_url : String → String
unfolding strip_prefix
normalize_chisel_url addr =
    if is_http (strip_prefix "http://" addr) || is_http (strip_prefix "https://" addr)
    then addr
    else "http://" ++ addr
