-- ===== src/Text.antt =====
-- What the program uses of Go's `strings`, `strconv` and `net` packages, over native texts.
mod Tests
pub mod Search
pub mod Trim
pub mod Split
use Prim.Native.Char.{Char, code}
use Prim.Native.String
use Prim.Native.String.{◌++◌}
use oh_my_lan.Prelude.{
  ℕ, zero, suc, ◌+◌, ◌-◌, ◌*◌, ◌/◌, ◌%◌, String, Bool, true, false, not, ◌&&◌, ◌||◌, Option, none,
  some, List, [], ◌∷◌, leb, ltb, nat_eq, ℤ, pos, negsuc, if◌then◌else◌,
}

-- the first separator parts a text in two (`strings.SplitN(s, sep, 2)`, `strings.Cut`)
unfoldable pub cut : ℕ → String → String × Option String
cut sep String.[] = (String.[], none)
cut sep (String.◌∷◌ c s) =
    let (before, after) = cut sep s in
    if nat_eq (code c) sep then (String.[], some s) else (String.◌∷◌ c before, after)

-- `strings.CutPrefix`
unfoldable pub strip_prefix : String → String → Option String
strip_prefix String.[] s = some s
strip_prefix (String.◌∷◌ c p) String.[] = none
strip_prefix (String.◌∷◌ c p) (String.◌∷◌ d s) =
    let rest = strip_prefix p s in if nat_eq (code c) (code d) then rest else none

unfoldable pub contains_char : ℕ → String → Bool
contains_char x String.[] = false
contains_char x (String.◌∷◌ c s) = nat_eq (code c) x || contains_char x s

-- `unicode.IsSpace`
abbrev pub is_space : ℕ → Bool
is_space c =
    (leb 9 c && leb c 13)
    || nat_eq c 32
    || nat_eq c 0x85
    || nat_eq c 0xa0
    || nat_eq c 0x1680
    || (leb 0x2000 c && leb c 0x200a)
    || nat_eq c 0x2028
    || nat_eq c 0x2029
    || nat_eq c 0x202f
    || nat_eq c 0x205f
    || nat_eq c 0x3000

unfoldable pub trim_left : String → String
trim_left String.[] = String.[]
trim_left (String.◌∷◌ c s) =
    let rest = trim_left s in if is_space (code c) then rest else String.◌∷◌ c s

abbrev pub is_empty : String → Bool
is_empty String.[] = true
is_empty (String.◌∷◌ c s) = false

unfoldable pub trim_right : String → String
trim_right String.[] = String.[]
trim_right (String.◌∷◌ c s) =
    let rest = trim_right s in
    if is_empty rest && is_space (code c) then String.[] else String.◌∷◌ c rest

unfoldable pub trim_space : String → String
unfolding trim_left trim_right
trim_space s = trim_right (trim_left s)

abbrev pub push_char : Char → List String → List String
push_char c [] = String.◌∷◌ c String.[] ∷ []
push_char c (w ∷ ws) = String.◌∷◌ c w ∷ ws

-- `strings.Fields`; `inside` says that the character before was none of a space
split_fields : String → List String
split_fields String.[] = String.[] ∷ []
split_fields (String.◌∷◌ c s) =
    let rest = split_fields s in if is_space (code c) then String.[] ∷ rest else push_char c rest

drop_empty : List String → List String
drop_empty [] = []
drop_empty (w ∷ ws) = let rest = drop_empty ws in if is_empty w then rest else w ∷ rest

unfoldable pub fields : String → List String
unfolding split_fields drop_empty
fields s = drop_empty (split_fields s)

-- `strconv.Atoi`, where no digit is out of place and the value fits
digits_value : ℕ → String → Option ℕ
digits_value n String.[] = some n
digits_value n (String.◌∷◌ c s) =
    let rest = digits_value (n * 10 + (code c - 48)) s in
    if leb 48 (code c) && leb (code c) 57 then rest else none

abbrev non_empty_digits : String → Option ℕ
unfolding digits_value
non_empty_digits String.[] = none
non_empty_digits (String.◌∷◌ c s) = digits_value 0 (String.◌∷◌ c s)

abbrev pub max_int : ℕ
max_int = 9_223_372_036_854_775_807

abbrev positive : Option ℕ → Option ℤ
positive none = none
positive (some n) = if leb n max_int then some (pos n) else none

abbrev negated : Option ℕ → Option ℤ
negated none = none
negated (some zero) = some (pos 0)
negated (some (suc n)) = if leb n max_int then some (negsuc n) else none

unfoldable pub atoi : String → Option ℤ
unfolding digits_value
atoi String.[] = none
atoi (String.◌∷◌ c s) =
    if nat_eq (code c) b'-'
    then negated (non_empty_digits s)
    else if nat_eq (code c) b'+'
    then positive (non_empty_digits s)
    else positive (non_empty_digits (String.◌∷◌ c s))

abbrev pub digit : ℕ → String
digit d =
    if nat_eq d 0
    then "0"
    else if nat_eq d 1
    then "1"
    else if nat_eq d 2
    then "2"
    else if nat_eq d 3
    then "3"
    else if nat_eq d 4
    then "4"
    else if nat_eq d 5
    then "5"
    else if nat_eq d 6
    then "6"
    else if nat_eq d 7
    then "7"
    else if nat_eq d 8
    then "8"
    else "9"

-- The digits of a number below 10 ^ fuel.
unfoldable pub decimal_digits : ℕ → ℕ → String
decimal_digits zero n = String.[]
decimal_digits (suc fuel) n =
    let front = decimal_digits fuel (n / 10) in
    if ltb n 10 then digit n else front ++ digit (n % 10)

-- `%d` of a number that fits in 64 bits, so of at most 20 digits
unfoldable pub decimal : ℕ → String
unfolding decimal_digits
decimal n = decimal_digits 20 n

-- the text before the last separator and after it
unfoldable pub cut_last : ℕ → String → Option (String × String)
cut_last sep String.[] = none
cut_last sep (String.◌∷◌ c s) = elim (cut_last sep s) [
  | some (before, after) ↦ some (String.◌∷◌ c before, after)
  | none ↦ if nat_eq (code c) sep then some (String.[], s) else none
]

abbrev no_brackets : String → Bool
no_brackets s = not (contains_char b'[' s) && not (contains_char b']' s)

abbrev port_part : String → Option String → Option (String × String)
port_part host none = none
port_part host (some port) =
    if not (contains_char b':' port) && not (contains_char b'[' host) && no_brackets port
    then some (host, port)
    else none

abbrev after_bracket : String × Option String → Option (String × String)
after_bracket (host, none) = none
after_bracket (host, some rest) = port_part host (strip_prefix ":" rest)

-- The text behind a leading `[`: the host ends at the first `]`, which the last colon follows.
abbrev bracketed : String → Option (String × String)
bracketed s = after_bracket (cut b']' s)

abbrev plain : String → Option (String × String)
plain s = elim (cut_last b':' s) [
  | none ↦ none
  | some (host, port) ↦
      if not (contains_char b':' host) && no_brackets host && no_brackets port
      then some (host, port)
      else none
]

-- `net.SplitHostPort`
unfoldable pub split_host_port : String → Option (String × String)
unfolding cut cut_last strip_prefix contains_char
split_host_port s = elim (strip_prefix "[" s) [ some rest ↦ bracketed rest | none ↦ plain s ]

-- `net.JoinHostPort`
unfoldable pub join_host_port : String → String → String
unfolding contains_char
join_host_port host port =
    if contains_char b':' host then "[" ++ host ++ "]:" ++ port else host ++ ":" ++ port
