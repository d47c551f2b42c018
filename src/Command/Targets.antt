-- ===== src/Command/Targets.antt =====
-- Which processes get a signal.
use oh_my_lan.Prelude.{
  ◌≡◌, refl, String, Bool, true, false, not, ◌||◌, ◌==◌, Option, none, some, List, [], ◌∷◌, ◌++◌,
  All, All-select, map, select, ℤ, pos, greater, int_eq, inl, inr, Bool-cases, if◌then◌else◌,
}
use oh_my_lan.Text.{trim_space, fields, atoi}
use oh_my_lan.Text.Search.{split, join}
use oh_my_lan.Command.{
  Signal, term, kill, target, is_daemon, scan_line, scan_lines, ps_scan, kill_by_config, Process,
  ended, preempt_old_daemon, taken_over, of_fields, wanted_pid,
}

-- a process that the new daemon may end: another one, alive, and an omlctl
pub record IsOldDaemon (processes : ℤ → Process) (self p : ℤ) : Type 0 where
  pub positive : greater p (pos 0) ≡ true
  pub other : int_eq p self ≡ false
  pub alive : (processes p).alive ≡ true
  pub omlctl : (processes p).looks_like_omlctl ≡ true

taken_over-IsOldDaemon :
    (processes : ℤ → Process) (self : ℤ) (o : Option ℤ)
    → All (λ s. IsOldDaemon processes self (target s)) (taken_over processes self o)
taken_over-IsOldDaemon processes self none = tt
taken_over-IsOldDaemon processes self (some p) =
    by_tests (greater p (pos 0)) (int_eq p self) (processes p).alive (processes p).looks_like_omlctl
      (ended (processes p)) (λ a b c d. record { positive = a; other = b; alive = c; omlctl = d })
  where
    by_tests :
        (positive same alive omlctl quit : Bool)
        → (positive ≡ true
            → same ≡ false
            → alive ≡ true
            → omlctl ≡ true
            → IsOldDaemon processes self p)
        → All
            (λ s. IsOldDaemon processes self (target s))
            (if not positive || same
              then []
              else if not alive
              then []
              else if not omlctl
              then []
              else term p ∷ (if quit then [] else kill p ∷ []))
    by_tests false same alive omlctl quit k = tt
    by_tests true true alive omlctl quit k = tt
    by_tests true false false omlctl quit k = tt
    by_tests true false true false quit k = tt
    by_tests true false true true true k = (k refl refl refl refl, tt)
    by_tests true false true true false k = (k refl refl refl refl, (k refl refl refl refl, tt))

-- A daemon that starts sends a signal to no process but one that is alive, not itself, and by its
-- command line an omlctl, whatever the pid file says.
pub preempt_old_daemon-IsOldDaemon :
    (processes : ℤ → Process) (self : ℤ) (file : Option String)
    → All (λ s. IsOldDaemon processes self (target s)) (preempt_old_daemon processes self file)
unfolding preempt_old_daemon
preempt_old_daemon-IsOldDaemon processes self none = tt
preempt_old_daemon-IsOldDaemon processes self (some raw) =
    taken_over-IsOldDaemon processes self (atoi (trim_space raw))

-- neither the process itself, nor init, nor a group of processes
abbrev pub IsOther : ℤ → ℤ → Type 0
IsOther self p = (int_eq p self ≡ false) × (greater p (pos 1) ≡ true)

All-append : {A : Type 0} (P : A → Type 0) (xs ys : List A) → All P xs → All P ys → All P (xs ++ ys)
All-append P [] ys h k = k
All-append P (x ∷ xs) ys h k = (h.0, All-append P xs ys h.1 k)

All-signal :
    (self : ℤ) (f : ℤ → Signal) (ps : List ℤ)
    → ((p : ℤ) → target (f p) ≡ p)
    → All (IsOther self) ps
    → All (λ s. IsOther self (target s)) (map f ps)
All-signal self f [] k h = tt
All-signal self f (p ∷ ps) k h = (rw (k p) h.0, All-signal self f ps k h.1)

wanted_pid-IsOther :
    (self : ℤ) (o : Option ℤ) (here : Bool) → All (IsOther self) (wanted_pid o self here)
wanted_pid-IsOther self none here = tt
wanted_pid-IsOther self (some p) here =
    by_tests (int_eq p self) (greater p (pos 1)) here (λ e g. (e, g))
  where
    by_tests :
        (same above here : Bool)
        → (same ≡ false → above ≡ true → IsOther self p)
        → All (IsOther self) (if same || not above then [] else if here then p ∷ [] else [])
    by_tests true above here k = tt
    by_tests false false here k = tt
    by_tests false true true k = (k refl refl, tt)
    by_tests false true false k = tt

of_fields-IsOther :
    (config absolute : String) (self : ℤ) (words : List String)
    → All (IsOther self) (of_fields config absolute self words)
of_fields-IsOther config absolute self [] = tt
of_fields-IsOther config absolute self (pid ∷ []) = tt
of_fields-IsOther config absolute self (pid ∷ word ∷ words) =
    wanted_pid-IsOther self (atoi pid) (is_daemon config absolute (join " " (word ∷ words)))

scan_line-IsOther :
    (config absolute : String) (self : ℤ) (line : String)
    → All (IsOther self) (scan_line config absolute self line)
unfolding scan_line
scan_line-IsOther config absolute self line = elim (Bool-cases (trim_space line == "")) [
  | inl empty ↦ rw empty tt
  | inr there ↦ rw there (of_fields-IsOther config absolute self (fields (trim_space line)))
]

scan_lines-IsOther :
    (config absolute : String) (self : ℤ) (lines : List String)
    → All (IsOther self) (scan_lines config absolute self lines)
unfolding scan_lines
scan_lines-IsOther config absolute self [] = tt
scan_lines-IsOther config absolute self (line ∷ lines) =
    All-append _ _ _ (scan_line-IsOther config absolute self line)
      (scan_lines-IsOther config absolute self lines)

ps_scan-IsOther :
    (out : Option String) (config absolute : String) (self : ℤ)
    → All (IsOther self) (ps_scan out config absolute self)
unfolding ps_scan
ps_scan-IsOther none config absolute self = tt
ps_scan-IsOther (some text) config absolute self =
    scan_lines-IsOther config absolute self (split 10 text)

-- Whatever `ps` writes and whichever processes hang, the clean-up signals neither itself, nor init,
-- nor by a pid that stands for a group of processes.
pub kill_by_config-IsOther :
    (out : Option String) (config absolute : String) (self : ℤ) (hung : ℤ → Bool)
    → All (λ s. IsOther self (target s)) (kill_by_config out config absolute self hung)
unfolding kill_by_config
kill_by_config-IsOther out config absolute self hung =
    let pids = ps_scan out config absolute self in
    let others = ps_scan-IsOther out config absolute self in
    All-append _ _ _ (All-signal self term pids (λ p. refl) others)
      (All-signal self kill (select hung pids) (λ p. refl) (All-select _ hung pids others))
