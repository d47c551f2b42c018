-- ===== src/Prelude/Counts.antt =====
-- How many rows pass a test, through the statements that list rows.
use mathlib.Core.Path.{◌≡◌, refl, ◌∙◌}
use mathlib.Core.Bool.{Bool, ◌&&◌}
use mathlib.Core.List.{List, [], ◌∷◌}
use native.Mathlib.Omega.{arith}
use oh_my_lan.Prelude.Tables.{All, count, select, insert_by, sort_by}

module _ {ℓ} {A : Type ℓ} where
  count-insert_by :
      (lt : A → A → Bool) (p : A → Bool) (x : A) (ys : List A)
      → count p (insert_by lt x ys) ≡ count p (x ∷ ys)
  count-insert_by lt p x [] = refl
  count-insert_by lt p x (y ∷ ys) = ground (arith, count-insert_by lt p x ys)

  pub count-sort_by :
      (lt : A → A → Bool) (p : A → Bool) (xs : List A) → count p (sort_by lt xs) ≡ count p xs
  unfolding sort_by
  count-sort_by lt p [] = refl
  count-sort_by lt p (x ∷ xs) =
      count-insert_by lt p x (sort_by lt xs) ∙ ground (arith, count-sort_by lt p xs)

  pub count-select :
      (p q : A → Bool) (xs : List A) → count p (select q xs) ≡ count (λ x. q x && p x) xs
  count-select p q [] = refl
  count-select p q (x ∷ xs) = ground (arith, count-select p q xs)

  -- two tests that agree on the rows of a table with a property
  pub count-ext :
      (P : A → Type 0) (p q : A → Bool) (xs : List A)
      → ((x : A) → P x → p x ≡ q x)
      → All P xs
      → count p xs ≡ count q xs
  count-ext P p q [] f h = refl
  count-ext P p q (x ∷ xs) f h = ground (arith, f x h.0, count-ext P p q xs f h.1)
