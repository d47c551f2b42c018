-- ===== src/Text/Trim.antt =====
-- Laws of `strings.TrimSpace` and of the search for a character, over joined texts.
use Prim.Native.Char.{code}
use Prim.Native.String.{◌++◌}
use Prim.Native.String.append
use oh_my_lan.Prelude.{
  ℕ, ◌≡◌, refl, ap, ◌∙◌, String, ◌==◌, eq_iff, Bool, true, false, not, ◌&&◌, ◌||◌, arith, inl, inr,
  Bool-cases,
}
use oh_my_lan.Text.{is_space, is_empty, trim_left, trim_right, trim_space, contains_char}

-- whether a text begins with a character that is not trimmed
abbrev pub starts_plain : String → Bool
starts_plain String.[] = false
starts_plain (String.◌∷◌ c s) = not (is_space (code c))

pub is_empty-append : (s t : String) → is_empty (s ++ t) ≡ is_empty s && is_empty t
is_empty-append String.[] t = rw (append.nil t) refl
is_empty-append (String.◌∷◌ c s) t = rw (append.cons c s t) refl

pub not_empty : (s : String) → is_empty s ≡ false → s == "" ≡ false
not_empty String.[] h = absurd (cc h)
not_empty (String.◌∷◌ c s) h = elim (Bool-cases (String.◌∷◌ c s == "")) [
  | inl e ↦ absurd (cc (ap is_empty ((eq_iff (String.◌∷◌ c s) "").0 e)))
  | inr e ↦ e
]

starts_plain-append : (s t : String) → starts_plain s ≡ true → starts_plain (s ++ t) ≡ true
starts_plain-append String.[] t h = absurd (cc h)
starts_plain-append (String.◌∷◌ c s) t h = rw (append.cons c s t) h

pub trim_left-plain : (s : String) → starts_plain s ≡ true → trim_left s ≡ s
unfolding trim_left
trim_left-plain String.[] h = absurd (cc h)
trim_left-plain (String.◌∷◌ c s) h =
    let plain : is_space (code c) ≡ false = ground (arith, h) in rw plain refl

-- What is behind the last character that is not trimmed goes, wherever a text is joined before.
pub trim_right-append :
    (s t : String) → is_empty (trim_right t) ≡ false → trim_right (s ++ t) ≡ s ++ trim_right t
unfolding trim_right
trim_right-append String.[] t h = rw (append.nil t, append.nil (trim_right t)) refl
trim_right-append (String.◌∷◌ c s) t h =
    let there : is_empty (s ++ trim_right t) ≡ false =
      is_empty-append s (trim_right t) ∙ rw h (ground arith) in
    rw (append.cons c s t, append.cons c s (trim_right t), trim_right-append s t h, there) refl

trim_left-starts : (s : String) → is_empty (trim_left s) ≡ false → starts_plain (trim_left s) ≡ true
unfolding trim_left
trim_left-starts String.[] h = absurd (cc h)
trim_left-starts (String.◌∷◌ c s) h = elim (Bool-cases (is_space (code c))) [
  | inl space ↦ rw space (trim_left-starts s (ground (arith, h, space)))
  | inr plain ↦ rw plain (rw plain refl)
]

trim_right-starts : (s : String) → starts_plain s ≡ true → starts_plain (trim_right s) ≡ true
unfolding trim_right
trim_right-starts String.[] h = absurd (cc h)
trim_right-starts (String.◌∷◌ c s) h =
    let plain : is_space (code c) ≡ false = ground (arith, h) in rw plain (ground (arith, plain))

trim_right-empty : (s : String) → is_empty s ≡ true → is_empty (trim_right s) ≡ true
unfolding trim_right
trim_right-empty String.[] h = refl
trim_right-empty (String.◌∷◌ c s) h = absurd (cc h)

pub trim_space-starts :
    (s : String) → is_empty (trim_space s) ≡ false → starts_plain (trim_space s) ≡ true
unfolding trim_space trim_right
trim_space-starts s h = elim (Bool-cases (is_empty (trim_left s))) [
  | inl e ↦ absurd (cc (trim_right-empty (trim_left s) e, h))
  | inr there ↦ trim_right-starts (trim_left s) (trim_left-starts s there)
]

-- A text that was trimmed, with another behind it that ends in what is trimmed.
pub trim_space-append :
    (s t : String)
    → is_empty (trim_space s) ≡ false
    → is_empty (trim_right t) ≡ false
    → trim_space (trim_space s ++ t) ≡ trim_space s ++ trim_right t
unfolding trim_space
trim_space-append s t h k =
    rw
      (trim_left-plain (trim_space s ++ t)
        (starts_plain-append (trim_space s) t (trim_space-starts s h)))
      (trim_right-append (trim_space s) t k)

pub contains_char-append :
    (x : ℕ) (s t : String) → contains_char x (s ++ t) ≡ contains_char x s || contains_char x t
unfolding contains_char
contains_char-append x String.[] t = rw (append.nil t) refl
contains_char-append x (String.◌∷◌ c s) t =
    rw (append.cons c s t) (ground (arith, contains_char-append x s t))
