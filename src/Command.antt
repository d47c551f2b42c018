-- ===== src/Command.antt =====
-- cmd/omlctl/main.go and kill_unix.go: how one daemon takes over from another, and how leftover
-- daemons are ended. What the operating system says of processes is given; a signal is an entry of
-- a list, in the order in which they are sent.
pub mod Targets
pub mod Server
use oh_my_lan.Prelude.{
  ℕ, String, Bool, true, false, not, ◌&&◌, ◌||◌, ◌==◌, Option, none, some, List, [], ◌∷◌, ◌++◌, map,
  select, exists, ℤ, pos, greater, int_eq, if◌then◌else◌,
}
use oh_my_lan.Text.{trim_space, fields, atoi}
use oh_my_lan.Text.Search.{split, contains, join}

pub data Signal : Type 0 where
  term : ℤ → Signal
  kill : ℤ → Signal

abbrev pub target : Signal → ℤ
target (term p) = p
target (kill p) = p

-- whether a command line is that of a daemon of this configuration
unfoldable pub is_daemon : String → String → String → Bool
unfolding contains
is_daemon config absolute command =
    contains "omlctl" command
    && contains "daemon start" command
    && (contains absolute command || contains config command)

abbrev wanted_pid : Option ℤ → ℤ → Bool → List ℤ
wanted_pid none self here = []
wanted_pid (some p) self here =
    if int_eq p self || not (greater p (pos 1)) then [] else if here then p ∷ [] else []

abbrev of_fields : String → String → ℤ → List String → List ℤ
of_fields config absolute self (pid ∷ word ∷ words) =
    wanted_pid (atoi pid) self (is_daemon config absolute (join " " (word ∷ words)))
of_fields config absolute self _ = []

-- one line of `ps`: its pid if it is to be ended
unfoldable pub scan_line : String → String → ℤ → String → List ℤ
unfolding trim_space fields is_daemon join atoi
scan_line config absolute self line =
    let text = trim_space line in
    if text == "" then [] else of_fields config absolute self (fields text)

unfoldable pub scan_lines : String → String → ℤ → List String → List ℤ
unfolding scan_line
scan_lines config absolute self [] = []
scan_lines config absolute self (line ∷ lines) =
    scan_line config absolute self line ++ scan_lines config absolute self lines

-- `psScanOmlctlByConfig`, with what `ps` wrote if it did not fail
unfoldable pub ps_scan : Option String → String → String → ℤ → List ℤ
unfolding scan_lines split
ps_scan none config absolute self = []
ps_scan (some out) config absolute self = scan_lines config absolute self (split 10 out)

-- `killOmlctlByConfig`: every process is asked to end, and those that are `hung` at the end of their
-- three seconds are killed.
unfoldable pub kill_by_config : Option String → String → String → ℤ → (ℤ → Bool) → List Signal
unfolding ps_scan
kill_by_config out config absolute self hung =
    let pids = ps_scan out config absolute self in map term pids ++ map kill (select hung pids)

-- `sigTermAndWait`: whether the process has ended; `sent` says that the signal could be sent,
-- `alive` what is found if not, and `polls` what is found every tenth of a second.
unfoldable pub has_ended : Bool → Bool → List Bool → Bool
has_ended false alive polls = not alive
has_ended true alive polls = exists not polls

-- what is known of a process
pub record Process : Type 0 where
  pub alive : Bool
  -- `processLooksLikeOmlctl`
  pub looks_like_omlctl : Bool
  -- whether SIGTERM can be sent, whether it is alive if not, and what is found while waiting
  pub term_sent : Bool
  pub alive_after : Bool
  pub polls : List Bool

abbrev pub ended : Process → Bool
ended p = has_ended p.term_sent p.alive_after p.polls

abbrev taken_over : (ℤ → Process) → ℤ → Option ℤ → List Signal
taken_over processes self none = []
taken_over processes self (some p) =
    if not (greater p (pos 0)) || int_eq p self
    then []
    else if not (processes p).alive
    then []
    else if not (processes p).looks_like_omlctl
    then []
    else term p ∷ (if ended (processes p) then [] else kill p ∷ [])

-- `preemptOldDaemon`, with the content of the pid file if it can be read
unfoldable pub preempt_old_daemon : (ℤ → Process) → ℤ → Option String → List Signal
unfolding trim_space atoi has_ended
preempt_old_daemon processes self none = []
preempt_old_daemon processes self (some raw) = taken_over processes self (atoi (trim_space raw))
