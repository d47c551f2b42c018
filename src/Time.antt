-- ===== src/Time.antt =====
-- Instants as nanoseconds since the epoch, and the text in which internal/store keeps them: the SQL
-- compares `time.RFC3339Nano` texts, in UTC. Such a text is a prefix of fixed width down to the
-- second, then the fraction of the second without its trailing zeros, then `Z`. In the model the
-- prefix is the number of the second (equal width makes the texts' order that of the numbers, for
-- the years 0 to 9999), and the rest is spelled in bytes.
pub mod Order
use oh_my_lan.Prelude.{
  ℕ, zero, suc, ◌+◌, ◌*◌, ◌/◌, ◌%◌, ◌^◌, Bool, true, false, List, [], ◌∷◌, ◌++◌, ltb, nat_eq,
  if◌then◌else◌, ℤ, pos, negsuc, ◌-◌,
}

abbrev pub second : ℕ
second = 1_000_000_000

-- what 64 bits of two's complement hold
abbrev signed : ℕ → ℤ
signed m = if ltb m (2 ^ 63) then pos m else negsuc (2 ^ 64 - 1 - m)

abbrev wrap_int64 : ℤ → ℤ
wrap_int64 (pos n) = signed (n % 2 ^ 64)
wrap_int64 (negsuc n) = signed (2 ^ 64 - 1 - n % 2 ^ 64)

abbrev times_second : ℤ → ℤ
times_second (pos n) = pos (n * second)
times_second (negsuc n) = negsuc (suc n * second - 1)

-- `time.Duration(n) * time.Second`, an int64 of nanoseconds, which wraps around
unfoldable pub seconds : ℤ → ℤ
seconds n = wrap_int64 (times_second n)

abbrev pub minute : ℕ
minute = 60 * second

abbrev pub hour : ℕ
hour = 60 * minute

-- what is left of an instant that goes through a text of `time.RFC3339`
abbrev pub whole_seconds : ℕ → ℕ
whole_seconds t = t / second * second

-- the decimal digits of the `n` last places of `f`, most significant first, as bytes
digit_bytes : ℕ → ℕ → List ℕ
digit_bytes zero f = []
digit_bytes (suc n) f = digit_bytes n (f / 10) ++ (48 + f % 10) ∷ []

-- Drops the zeros at the end.
trim_zeros : List ℕ → List ℕ
trim_zeros [] = []
trim_zeros (d ∷ ds) =
    let rest = trim_zeros ds in
    elim rest [ [] ↦ (if nat_eq d b'0' then [] else d ∷ []) | x ∷ xs ↦ d ∷ x ∷ xs ]

-- what follows the seconds
pub fraction : ℕ → List ℕ
unfolding digit_bytes trim_zeros
fraction f = if nat_eq f 0 then b'Z' ∷ [] else b'.' ∷ trim_zeros (digit_bytes 9 f) ++ b'Z' ∷ []

-- SQLite's BINARY collation
pub bytes_lt : List ℕ → List ℕ → Bool
bytes_lt xs [] = false
bytes_lt [] (y ∷ ys) = true
bytes_lt (x ∷ xs) (y ∷ ys) = let rest = bytes_lt xs ys in if nat_eq x y then rest else ltb x y

-- `a < b` between two timestamp columns or arguments
pub text_lt : ℕ → ℕ → Bool
text_lt a b =
    let s = a / second in
    let t = b / second in
    if nat_eq s t then bytes_lt (fraction (a % second)) (fraction (b % second)) else ltb s t
