-- ===== src/Text/Split.antt =====
-- `strings.Split`, of what `strings.Join` joined.
use Prim.Native.Char.{Char, code}
use Prim.Native.String.{◌++◌}
use Prim.Native.String.append
use oh_my_lan.Prelude.{
  ℕ, ◌≡◌, refl, ap, ◌∙◌, String, true, false, List, [], ◌∷◌, All, nat_eq, arith,
}
use oh_my_lan.Text.{contains_char}
use oh_my_lan.Text.Search.{split, join}

-- a text without the separator
abbrev pub IsPlain : ℕ → String → Type 0
IsPlain sep s = contains_char sep s ≡ false

split-plain : (sep : ℕ) (s : String) → IsPlain sep s → split sep s ≡ s ∷ []
unfolding split contains_char
split-plain sep String.[] h = refl
split-plain sep (String.◌∷◌ c s) h = rw (split-plain sep s (ground (arith, h))) (ground (arith, h))

split-append :
    (sep : ℕ) (s t rest : String)
    → IsPlain sep s
    → split sep t ≡ String.[] ∷ split sep rest
    → split sep (s ++ t) ≡ s ∷ split sep rest
unfolding split contains_char
split-append sep String.[] t rest h e = rw (append.nil t) e
split-append sep (String.◌∷◌ c s) t rest h e =
    rw (append.cons c s t)
      (rw (split-append sep s t rest (ground (arith, h)) e) (ground (arith, h)))

split_here :
    (sep : ℕ) (d : Char) (s : String)
    → nat_eq (code d) sep ≡ true
    → split sep (String.◌∷◌ d String.[] ++ s) ≡ String.[] ∷ split sep s
unfolding split
split_here sep d s e = rw (append.cons d String.[] s, append.nil s) (ground (arith, e))

-- Parts without the separator come back as they were joined.
pub split-join :
    (sep : ℕ) (d : Char) (s : String) (parts : List String)
    → nat_eq (code d) sep ≡ true
    → All (IsPlain sep) (s ∷ parts)
    → split sep (join (String.◌∷◌ d String.[]) (s ∷ parts)) ≡ s ∷ parts
unfolding join
split-join sep d s [] e h = split-plain sep s h.0
split-join sep d s (t ∷ parts) e h =
    split-append sep s _ (join (String.◌∷◌ d String.[]) (t ∷ parts)) h.0
      (split_here sep d (join (String.◌∷◌ d String.[]) (t ∷ parts)) e)
    ∙ ap (λ (l : List String). s ∷ l) (split-join sep d t parts e h.1)
