-- ===== src/Text/Search.antt =====
-- More of Go's `strings` package: prefixes, suffixes, parts of a text, and lower case.
use Prim.Native.Char.{Char, code}
use Prim.Native.String.{◌++◌}
use oh_my_lan.Prelude.{
  ℕ, ◌+◌, String, Bool, true, false, ◌&&◌, ◌||◌, Option, none, some, List, [], ◌∷◌, leb, ◌==◌,
  nat_eq, if◌then◌else◌,
}
use oh_my_lan.Text.{strip_prefix, is_empty}

abbrev pub is_some {ℓ} : {A : Type ℓ} → Option A → Bool
is_some none = false
is_some (some a) = true

-- `strings.HasPrefix(s, p)`
abbrev pub has_prefix : String → String → Bool
has_prefix p s = is_some (strip_prefix p s)

-- `strings.Contains(s, p)`
unfoldable pub contains : String → String → Bool
unfolding strip_prefix
contains p String.[] = is_empty p
contains p (String.◌∷◌ c s) = has_prefix p (String.◌∷◌ c s) || contains p s

-- `strings.HasSuffix(s, p)`
unfoldable pub has_suffix : String → String → Bool
has_suffix p String.[] = is_empty p
has_suffix p (String.◌∷◌ c s) = p == String.◌∷◌ c s || has_suffix p s

-- `strings.TrimSuffix(s, p)`
unfoldable pub trim_suffix : String → String → String
trim_suffix p String.[] = String.[]
trim_suffix p (String.◌∷◌ c s) =
    if p == String.◌∷◌ c s then String.[] else String.◌∷◌ c (trim_suffix p s)

abbrev pub push_first : Char → List String → List String
push_first c [] = String.◌∷◌ c String.[] ∷ []
push_first c (w ∷ ws) = String.◌∷◌ c w ∷ ws

-- `strings.Split(s, sep)` by a separator of one character
unfoldable pub split : ℕ → String → List String
split sep String.[] = String.[] ∷ []
split sep (String.◌∷◌ c s) =
    let rest = split sep s in if nat_eq (code c) sep then String.[] ∷ rest else push_first c rest

-- `strings.TrimRight(s, c)` by one character
unfoldable pub trim_right_char : ℕ → String → String
trim_right_char x String.[] = String.[]
trim_right_char x (String.◌∷◌ c s) =
    let rest = trim_right_char x s in
    if is_empty rest && nat_eq (code c) x then String.[] else String.◌∷◌ c rest

-- `unicode.ToLower`, for what it takes to an ASCII letter or leaves in ASCII
abbrev pub lower_code : ℕ → ℕ
lower_code c =
    if leb b'A' c && leb c b'Z'
    then c + 32
    else if nat_eq c 0x130
    then b'i'
    else if nat_eq c 0x212a
    then b'k'
    else c

-- Whether `strings.ToLower(s)` is `t`, a text in lower-case ASCII.
unfoldable pub lower_is : String → String → Bool
lower_is String.[] String.[] = true
lower_is String.[] (String.◌∷◌ d t) = false
lower_is (String.◌∷◌ c s) String.[] = false
lower_is (String.◌∷◌ c s) (String.◌∷◌ d t) = nat_eq (lower_code (code c)) (code d) && lower_is s t

abbrev folded_starts : (ℕ → ℕ) → String → String → Bool
folded_starts fold String.[] s = true
folded_starts fold (String.◌∷◌ d t) String.[] = false
folded_starts fold (String.◌∷◌ d t) (String.◌∷◌ c s) =
    nat_eq (fold (code c)) (code d) && folded_starts fold t s

-- Whether a text with its characters folded contains `t`.
unfoldable pub folded_contains : (ℕ → ℕ) → String → String → Bool
folded_contains fold t String.[] = is_empty t
folded_contains fold t (String.◌∷◌ c s) =
    folded_starts fold t (String.◌∷◌ c s) || folded_contains fold t s

-- Whether `strings.ToLower(s)` contains `t`, a text in lower-case ASCII.
abbrev pub lower_contains : String → String → Bool
lower_contains t s = folded_contains lower_code t s

-- what `(?i)` in a regular expression takes to a lower-case ASCII letter
abbrev pub fold_code : ℕ → ℕ
fold_code c =
    if leb b'A' c && leb c b'Z'
    then c + 32
    else if nat_eq c 0x17f
    then b's'
    else if nat_eq c 0x212a
    then b'k'
    else c

-- `strings.Join`
unfoldable pub join : String → List String → String
join sep [] = String.[]
join sep (s ∷ []) = s
join sep (s ∷ t ∷ rest) = s ++ sep ++ join sep (t ∷ rest)
