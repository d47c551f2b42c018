-- ===== src/Api/Escape.antt =====
-- `urlPathEscape` of internal/server/api/api.go, on the bytes of a text.
use oh_my_lan.Prelude.{
  ℕ, ◌+◌, ◌-◌, ◌*◌, ◌/◌, ◌%◌, ◌<◌, ◌≡◌, refl, ap, ◌∙◌, Bool, true, false, ◌&&◌, ◌||◌, Option, none,
  some, List, [], ◌∷◌, All, leb, ltb, nat_eq, arith, inl, inr, Bool-cases, if◌then◌else◌,
}

-- a byte of the text `safe`
abbrev pub is_safe : ℕ → Bool
is_safe c =
    (leb b'A' c && leb c b'Z')
    || (leb b'a' c && leb c b'z')
    || (leb b'0' c && leb c b'9')
    || nat_eq c b'-'
    || nat_eq c b'.'
    || nat_eq c b'_'
    || nat_eq c b'~'
    || nat_eq c b'!'
    || nat_eq c b'$'
    || (leb b'&' c && leb c b',')
    || nat_eq c b':'
    || nat_eq c b';'
    || nat_eq c b'='
    || nat_eq c b'@'

-- `hex[n]`
abbrev pub hex_digit : ℕ → ℕ
hex_digit n = if ltb n 10 then 48 + n else 55 + n

unfoldable pub url_path_escape : List ℕ → List ℕ
url_path_escape [] = []
url_path_escape (c ∷ s) =
    let rest = url_path_escape s in
    if is_safe c then c ∷ rest else b'%' ∷ hex_digit (c / 16) ∷ hex_digit (c % 16) ∷ rest

-- What a server does with a path: RFC 3986, 2.1.
abbrev hex_value : ℕ → Option ℕ
hex_value c =
    if leb 48 c && leb c 57
    then some (c - 48)
    else if leb 65 c && leb c 70
    then some (c - 55)
    else none

abbrev put : ℕ → Option (List ℕ) → Option (List ℕ)
put c none = none
put c (some s) = some (c ∷ s)

abbrev put_coded : Option ℕ → Option ℕ → Option (List ℕ) → Option (List ℕ)
put_coded (some h) (some l) rest = put (h * 16 + l) rest
put_coded (some h) none rest = none
put_coded none l rest = none

unfoldable pub unescape : List ℕ → Option (List ℕ)
unescape [] = some []
unescape (c ∷ []) = if nat_eq c b'%' then none else some (c ∷ [])
unescape (c ∷ h ∷ []) = let rest = unescape (h ∷ []) in if nat_eq c b'%' then none else put c rest
unescape (c ∷ h ∷ l ∷ s) =
    let plain = unescape (h ∷ l ∷ s) in
    let coded = unescape s in
    if nat_eq c b'%' then put_coded (hex_value h) (hex_value l) coded else put c plain

unescape-plain :
    (c : ℕ) (s : List ℕ) → nat_eq c b'%' ≡ false → unescape (c ∷ s) ≡ put c (unescape s)
unfolding unescape
unescape-plain c [] h = rw h refl
unescape-plain c (d ∷ []) h = rw h refl
unescape-plain c (d ∷ e ∷ s) h = rw h refl

hex_value-hex_digit : (n : ℕ) → n < 16 → hex_value (hex_digit n) ≡ some n
hex_value-hex_digit n h = elim (Bool-cases (ltb n 10)) [
  | inl low ↦
      let a : leb 48 (48 + n) && leb (48 + n) 57 ≡ true = ground (arith, low) in
      rw (low, a) (ap some (omega arith))
  | inr high ↦
      let a : leb 48 (55 + n) && leb (55 + n) 57 ≡ false = ground (arith, high) in
      let b : leb 65 (55 + n) && leb (55 + n) 70 ≡ true = ground (arith, high, h) in
      rw (high, a, b) (ap some (omega arith))
]

-- What is escaped is read back, byte for byte.
pub unescape-url_path_escape :
    (s : List ℕ) → All (λ c. c < 256) s → unescape (url_path_escape s) ≡ some s
unfolding url_path_escape unescape
unescape-url_path_escape [] h = refl
unescape-url_path_escape (c ∷ s) h = elim (Bool-cases (is_safe c)) [
  | inl safe ↦
      let plain : nat_eq c b'%' ≡ false = ground (arith, safe) in
      rw safe
        (unescape-plain c (url_path_escape s) plain ∙ ap (put c) (unescape-url_path_escape s h.1))
  | inr coded ↦
      let high : hex_value (hex_digit (c / 16)) ≡ some (c / 16) =
        hex_value-hex_digit (c / 16) (omega (arith, h.0)) in
      let low : hex_value (hex_digit (c % 16)) ≡ some (c % 16) =
        hex_value-hex_digit (c % 16) (omega arith) in
      let whole : c / 16 * 16 + c % 16 ≡ c = omega arith in
      rw coded (rw (high, low, unescape-url_path_escape s h.1, whole) refl)
]
