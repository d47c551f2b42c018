-- ===== src/Logging/RingBuffer.antt =====
-- internal/logging/buffer.go: a fixed-capacity log buffer that overwrites its oldest entry.
pub mod History
use oh_my_lan.Prelude.{
  ℕ, zero, suc, ◌+◌, ◌-◌, ◌%◌, String, Bool, true, false, List, [], ◌∷◌, ℤ, pos_part, get_or, set,
  replicate, ltb, nat_eq, if◌then◌else◌, ◌||◌,
}

pub record LogEntry : Type 0 where
  pub time : ℕ
  pub level : String
  pub message : String
  pub attrs : String

-- Go's zero value, with which `make` fills the slots.
abbrev pub zero_entry : LogEntry
zero_entry = record { time = 0; level = ""; message = ""; attrs = "" }

pub record RingBuffer : Type 0 where
  pub entries : List LogEntry
  pub head : ℕ
  pub full : Bool
  pub cap : ℕ

-- A capacity that is not positive stands for 1000.
abbrev pub capacity : ℤ → ℕ
capacity c = let n = pos_part c in if nat_eq n 0 then 1000 else n

pub new_ring_buffer : ℤ → RingBuffer
new_ring_buffer c =
    let n = capacity c in
    record { entries = replicate n zero_entry; head = 0; full = false; cap = n }

-- The lock is held throughout, so a call is one step.
pub add : LogEntry → RingBuffer → RingBuffer
add e b =
    let next = (b.head + 1) % b.cap in
    record b {
      entries = set b.entries b.head e;
      head = next;
      full = if nat_eq next 0 then true else b.full;
    }

-- The loop of `Snapshot`: `rounds` more reads, from `i` on.
pub read_from : RingBuffer → ℕ → ℕ → ℕ → List LogEntry
read_from b start i zero = []
read_from b start i (suc rounds) =
    get_or b.entries ((start + i) % b.cap) zero_entry ∷ read_from b start (suc i) rounds

abbrev pub stored : RingBuffer → ℕ
stored b = if b.full then b.cap else b.head

abbrev pub clamp_limit : ℤ → ℕ → ℕ
clamp_limit limit n = let l = pos_part limit in if nat_eq l 0 || ltb n l then n else l

pub snapshot : ℤ → RingBuffer → List LogEntry
snapshot limit b =
    let n = stored b in
    let count = clamp_limit limit n in
    let start = if b.full then b.head else 0 in let skip = n - count in read_from b start skip count

pub add_all : List LogEntry → RingBuffer → RingBuffer
add_all [] b = b
add_all (e ∷ es) b = add_all es (add e b)
