-- ===== src/Logging/RingBuffer/History.antt =====
-- The buffer against the history of everything that was added to it.
use native.Mathlib.Nat.{
  zero-mod, add-mod_right, mod_self, mod-lt, mod-eq_of_lt, mod-add-mod, mod-eq-sub-mod,
}
use mathlib.Core.Path.{ap₂}
use mathlib.Core.List.{append-nil, append_assoc}
use native.Mathlib.Decide.{dec_lt}
use oh_my_lan.Prelude.{
  ℕ, zero, suc, ◌+◌, ◌-◌, ◌%◌, ◌≤◌, ◌<◌, ◌≡◌, refl, sym, ◌≢◌, ◌∙◌, ap, List, [], ◌∷◌, ◌++◌, arith,
  ℤ, get_or, set, length, drop, leb, length-append, length-set, length-replicate, get_or-set_self,
  get_or-set_ne, get_or-append_left, get_or-append_last, drop-cons, drop_all, min, if◌then◌else◌,
}
use oh_my_lan.Logging.RingBuffer.{
  LogEntry, zero_entry, RingBuffer, new_ring_buffer, capacity, add, read_from, stored, clamp_limit,
  snapshot, add_all,
}

-- The entry added as number `j` lies in slot `j % cap`, until `cap` more have been added.
pub record Holds (b : RingBuffer) (h : List LogEntry) : Type 0 where
  pub roomy : 0 < b.cap
  pub slots : length b.entries ≡ b.cap
  pub head_at : b.head ≡ length h % b.cap
  pub full_at : b.full ≡ leb b.cap (length h)
  pub entry_at :
      (j : ℕ)
      → j < length h
      → length h ≤ j + b.cap
      → get_or b.entries (j % b.cap) zero_entry ≡ get_or h j zero_entry

-- Adding less than `n`, and not nothing, changes the remainder.
mod-add-ne : (n i k : ℕ) → 0 < k → k < n → (i + k) % n ≢ i % n
mod-add-ne n i k up lt e = go (i % n) (mod-lt i (omega arith)) (mod-add-mod i n k ∙ e)
  where
    go : (r : ℕ) → r < n → (r + k) % n ≡ r → ⊥
    go r small same = elim (dec_lt (r + k) n) [
      | yes p ↦ omega (arith, mod-eq_of_lt p)
      | no p ↦ omega (
        arith,
        mod-eq-sub-mod {n = r + k} {m = n} (omega arith),
        mod-eq_of_lt {n = r + k - n} {m = n} (omega arith),
      )
    ]

capacity_pos : (c : ℤ) → 0 < capacity c
capacity_pos c = ground arith

-- A new buffer holds the empty history.
pub Holds-new : (c : ℤ) → Holds (new_ring_buffer c) []
unfolding new_ring_buffer
Holds-new c = record {
  roomy = capacity_pos c;
  slots = length-replicate (capacity c) zero_entry;
  head_at = sym (zero-mod (capacity c));
  full_at = ground (arith, capacity_pos c);
  entry_at = λ j h _. absurd (omega arith);
}

module _ {b : RingBuffer} {h : List LogEntry} (v : Holds b h) (e : LogEntry) where
  -- `full` is set when the head comes back to slot 0, which happens first at entry `cap`.
  add_full : (add e b).full ≡ leb b.cap (length h + 1)
  unfolding add
  add_full = elim (dec_lt (length h + 1) b.cap) [
    | yes p ↦ ground (arith, v.head_at, v.full_at, mod-add-mod (length h) b.cap 1, mod-eq_of_lt p)
    | no p ↦ elim (dec_lt (length h) b.cap) [
      | yes q ↦
          let last : length h + 1 ≡ b.cap = omega arith in
          ground (
            arith,
            v.head_at,
            v.full_at,
            mod-add-mod (length h) b.cap 1,
            mod_self b.cap,
            ap (λ (k : ℕ). k % b.cap) last,
          )
      | no q ↦ ground (arith, v.full_at)
    ]
  ]

  add_head : (add e b).head ≡ (length h + 1) % b.cap
  unfolding add
  add_head = rw (v.head_at, mod-add-mod)

  cap-add : (add e b).cap ≡ b.cap
  unfolding add
  cap-add = refl

  entries-add : (add e b).entries ≡ set b.entries (length h % b.cap) e
  unfolding add
  entries-add = ap (λ (k : ℕ). set b.entries k e) v.head_at

  -- What `Add` does not overwrite is where it was, and the new entry is in the slot at the head.
  add_entry :
      (j : ℕ)
      → j < length h + 1
      → length h + 1 ≤ j + b.cap
      → get_or (add e b).entries (j % b.cap) zero_entry ≡ get_or (h ++ e ∷ []) j zero_entry
  add_entry j lt near = elim (dec_lt j (length h)) [
    | yes old ↦
        rw
          (
            entries-add,
            get_or-set_ne b.entries (length h % b.cap) (j % b.cap) e zero_entry (other old),
            get_or-append_left h (e ∷ []) j zero_entry old,
          )
          (v.entry_at j old (omega arith))
    | no new ↦
        let here : j ≡ length h = omega arith in
        rw (here, entries-add, get_or-append_last h e zero_entry (length h) refl)
          (get_or-set_self b.entries (length h % b.cap) e zero_entry
            (omega (arith, mod-lt (length h) v.roomy, v.slots)))
  ]
    where
      other : j < length h → length h % b.cap ≢ j % b.cap
      other old same =
          mod-add-ne b.cap j (length h - j) (omega arith) (omega arith)
            (ap (λ (k : ℕ). k % b.cap) (omega arith) ∙ same)

  -- `Add` appends to the history.
  pub Holds-add : Holds (add e b) (h ++ e ∷ [])
  unfolding add
  Holds-add = record {
    roomy = v.roomy;
    slots = length-set b.entries b.head e ∙ v.slots;
    head_at = rw length-append add_head;
    full_at = rw length-append add_full;
    entry_at = λ j lt near.
        add_entry j (omega (arith, length-append h (e ∷ [])))
          (omega (arith, length-append h (e ∷ [])));
  }

cap-new : (c : ℤ) → (new_ring_buffer c).cap ≡ capacity c
unfolding new_ring_buffer
cap-new c = refl

cap-add_all : (es : List LogEntry) (b : RingBuffer) → (add_all es b).cap ≡ b.cap
unfolding add_all add
cap-add_all [] b = refl
cap-add_all (e ∷ es) b = cap-add_all es (add e b)

-- Adding a list of entries appends the list.
pub Holds-add_all :
    (es : List LogEntry) {b : RingBuffer} {h : List LogEntry}
    → Holds b h
    → Holds (add_all es b) (h ++ es)
unfolding add_all
Holds-add_all [] {b} {h} v = rw append-nil v
Holds-add_all (e ∷ es) {b} {h} v =
    rw (← append_assoc h (e ∷ []) es) (Holds-add_all es (Holds-add v e))

module _ {b : RingBuffer} {h : List LogEntry} (v : Holds b h) where
  -- the number of entries that `Snapshot` can see
  stored-min : stored b ≡ min b.cap (length h)
  stored-min = elim (dec_lt (length h) b.cap) [
    | yes p ↦ ground (arith, v.full_at, v.head_at, mod-eq_of_lt p)
    | no p ↦ ground (arith, v.full_at)
  ]

  -- The slot that the loop reads at step `i` is that of entry number `length h - stored b + i`.
  slot_at :
      (i : ℕ)
      → i < stored b
      → ((if b.full then b.head else 0) + i) % b.cap ≡ (length h - stored b + i) % b.cap
  slot_at i lt = elim (dec_lt (length h) b.cap) [
    | yes p ↦ ap (λ (k : ℕ). k % b.cap) (ground (arith, v.full_at, v.head_at, mod-eq_of_lt p))
    | no p ↦ ground (
      arith,
      v.full_at,
      v.head_at,
      mod-add-mod (length h) b.cap i,
      add-mod_right (length h - b.cap + i) b.cap,
      ap (λ (k : ℕ). k % b.cap) (regroup p),
    )
  ]
    where
      regroup : ¬ (length h < b.cap) → length h - b.cap + i + b.cap ≡ length h + i
      regroup p = omega arith

  read_from-drop :
      (rounds i : ℕ)
      → i + rounds ≡ stored b
      → read_from b (if b.full then b.head else 0) i rounds ≡ drop (length h - stored b + i) h
  unfolding read_from
  read_from-drop zero i e = sym (drop_all (length h - stored b + i) h (omega (arith, stored-min)))
  read_from-drop (suc rounds) i e =
      rw (drop-cons (length h - stored b + i) h zero_entry (omega (arith, stored-min)))
        (ap₂ ◌∷◌ (slot_read (omega arith)) (later (read_from-drop rounds (suc i) (omega arith))))
    where
      later :
          read_from b (if b.full then b.head else 0) (suc i) rounds
            ≡ drop (length h - stored b + suc i) h
          → read_from b (if b.full then b.head else 0) (suc i) rounds
            ≡ drop (suc (length h - stored b + i)) h
      later p =
          let e : length h - stored b + suc i ≡ suc (length h - stored b + i) = omega arith in
          p ∙ ap (λ (k : ℕ). drop k h) e

      slot_read :
          i < stored b
          → get_or b.entries (((if b.full then b.head else 0) + i) % b.cap) zero_entry
            ≡ get_or h (length h - stored b + i) zero_entry
      slot_read lt = rw (slot_at i lt) (
          v.entry_at (length h - stored b + i) (omega (arith, stored-min))
            (omega (arith, stored-min)))

  -- `Snapshot(limit)` is the last `limit` entries of the history, oldest first: all that the buffer
  -- still holds (at most `cap`), where the limit is not positive or larger.
  pub snapshot-drop :
      (limit : ℤ) → snapshot limit b ≡ drop (length h - clamp_limit limit (min b.cap (length h))) h
  unfolding snapshot
  snapshot-drop limit =
      read_from-drop (clamp_limit limit (stored b)) (stored b - clamp_limit limit (stored b))
        (omega (arith, clamp_le))
      ∙ ap (λ (k : ℕ). drop k h) (split ∙ ap (λ (n : ℕ). length h - clamp_limit limit n) stored-min)
    where
      clamp_le : clamp_limit limit (stored b) ≤ stored b
      clamp_le = ground arith

      split :
          length h - stored b + (stored b - clamp_limit limit (stored b))
          ≡ length h - clamp_limit limit (stored b)
      split = omega (arith, clamp_le, stored-min)

-- After any entries are added to a new buffer, `Snapshot(limit)` is the last entries added, oldest
-- first: as many as the limit says, and no more than the capacity or than were added.
pub snapshot-add_all :
    (c limit : ℤ) (es : List LogEntry)
    → snapshot limit (add_all es (new_ring_buffer c))
      ≡ drop (length es - clamp_limit limit (min (capacity c) (length es))) es
snapshot-add_all c limit es =
    snapshot-drop (Holds-add_all es (Holds-new c)) limit
    ∙ ap (λ (n : ℕ). drop (length es - clamp_limit limit (min n (length es))) es)
        (cap-add_all es (new_ring_buffer c) ∙ cap-new c)
