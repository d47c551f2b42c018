-- ===== src/Time/Order.antt =====
-- How far the order of the stored texts is the order of the instants.
use oh_my_lan.Prelude.{
  ℕ, ◌+◌, ◌*◌, ◌≤◌, ◌<◌, ◌≡◌, refl, true, false, List, arith, ◌++◌, ◌/◌, ◌%◌, [], ◌∷◌, false,
  nat_eq,
}
use oh_my_lan.Time.{second, digit_bytes, trim_zeros, fraction, bytes_lt, text_lt}

-- An instant that is a second or more earlier compares as less.
pub text_lt_of_second-le : (a b : ℕ) → a + second ≤ b → text_lt a b ≡ true
unfolding text_lt
text_lt_of_second-le a b h = ground arith

-- What compares as less is earlier, or later by less than a second.
pub text_lt-near : (a b : ℕ) → text_lt a b ≡ true → a < b + second
unfolding text_lt
text_lt-near a b h = ground arith

fraction_head : (f : ℕ) → 0 < f → (rest : List ℕ) × (fraction f ≡ b'.' ∷ rest)
unfolding fraction
fraction_head f h =
    let e : nat_eq f 0 ≡ false = ground arith in (trim_zeros (digit_bytes 9 f) ++ b'Z' ∷ [], rw e)

dot_first :
    (rest : List ℕ)
    → (bytes_lt (b'.' ∷ rest) (fraction 0) ≡ true) × (bytes_lt (fraction 0) (b'.' ∷ rest) ≡ false)
unfolding fraction bytes_lt
dot_first rest = (refl, refl)

-- Within one second a whole second compares as greater than every later instant: `Z` sorts behind
-- the `.` of a fraction.
pub text_lt_whole :
    (s f : ℕ)
    → 0 < f
    → f < second
    → (text_lt (s * second + f) (s * second) ≡ true)
      × (text_lt (s * second) (s * second + f) ≡ false)
unfolding text_lt
text_lt_whole s f h k =
    let (rest, dot) = fraction_head f h in
    let q : (s * second + f) / second ≡ s = omega arith in
    let r : (s * second + f) % second ≡ f = omega arith in
    let q' : (s * second) / second ≡ s = omega arith in
    let r' : (s * second) % second ≡ 0 = omega arith in
    rw (q, r, q', r', dot) (ground (arith, dot_first rest))
