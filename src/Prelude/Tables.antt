-- ===== src/Prelude/Tables.antt =====
-- Tables as lists of rows: the WHERE of SELECT, UPDATE and DELETE as a Boolean test on a row, UNIQUE
-- constraints as a symmetric clash test, and the laws of these.
use mathlib.Core.Path.{◌≡◌, refl, ap, ◌∙◌}
use mathlib.Core.Logic.{◌↔◌, inl, inr}
use mathlib.Core.Bool.{Bool, true, false, not, ◌&&◌, ◌||◌}
use mathlib.Core.Option.{Option, none, some}
use mathlib.Core.List.{List, [], ◌∷◌}
use native.Mathlib.Omega.{arith}
use Prim.Native.Nat.{ℕ, suc}
use oh_my_lan.Prelude.Tests.{if◌then◌else◌, Bool-cases}

module _ {ℓ} {A : Type ℓ} where
  abbrev pub exists : (A → Bool) → List A → Bool
  exists p [] = false
  exists p (x ∷ xs) = p x || exists p xs

  abbrev pub first : (A → Bool) → List A → Option A
  first p [] = none
  first p (x ∷ xs) = if p x then some x else first p xs

  abbrev pub select : (A → Bool) → List A → List A
  select p [] = []
  select p (x ∷ xs) = let rest = select p xs in if p x then x ∷ rest else rest

  abbrev pub delete : (A → Bool) → List A → List A
  delete p = select (λ x. not (p x))

  abbrev pub update : (A → Bool) → (A → A) → List A → List A
  update p f [] = []
  update p f (x ∷ xs) = (if p x then f x else x) ∷ update p f xs

  abbrev pub count : (A → Bool) → List A → ℕ
  count p [] = 0
  count p (x ∷ xs) = if p x then suc (count p xs) else count p xs

  -- ORDER BY: a stable insertion sort, by a strict test
  abbrev pub insert_by : (A → A → Bool) → A → List A → List A
  insert_by lt x [] = x ∷ []
  insert_by lt x (y ∷ ys) = if lt y x then y ∷ insert_by lt x ys else x ∷ y ∷ ys

  unfoldable pub sort_by : (A → A → Bool) → List A → List A
  sort_by lt [] = []
  sort_by lt (x ∷ xs) = insert_by lt x (sort_by lt xs)

  exists-insert_by :
      (lt : A → A → Bool) (p : A → Bool) (x : A) (ys : List A)
      → exists p (insert_by lt x ys) ≡ p x || exists p ys
  exists-insert_by lt p x [] = refl
  exists-insert_by lt p x (y ∷ ys) = ground (arith, exists-insert_by lt p x ys)

  pub exists-sort_by :
      (lt : A → A → Bool) (p : A → Bool) (xs : List A) → exists p (sort_by lt xs) ≡ exists p xs
  unfolding sort_by
  exists-sort_by lt p [] = refl
  exists-sort_by lt p (x ∷ xs) =
      exists-insert_by lt p x (sort_by lt xs) ∙ ap (λ b. p x || b) (exists-sort_by lt p xs)

  pub exists-select :
      (q p : A → Bool) (xs : List A) → exists q (select p xs) ≡ exists (λ x. p x && q x) xs
  exists-select q p [] = refl
  exists-select q p (x ∷ xs) = ground (arith, exists-select q p xs)

  -- A test that a row fails, or that implies another, in a table.
  pub exists-imp :
      (p q : A → Bool) (xs : List A)
      → ((x : A) → p x ≡ true → q x ≡ true)
      → exists p xs ≡ true
      → exists q xs ≡ true
  exists-imp p q [] f h = h
  exists-imp p q (x ∷ xs) f h = ground (arith, f x, exists-imp p q xs f)

  pub exists-ext :
      (p q : A → Bool) (xs : List A) → ((x : A) → p x ≡ q x) → exists p xs ≡ exists q xs
  exists-ext p q [] f = refl
  exists-ext p q (x ∷ xs) f = ground (arith, f x, exists-ext p q xs f)

  pub not-exists-select :
      (q p : A → Bool) (xs : List A) → exists q xs ≡ false → exists q (select p xs) ≡ false
  not-exists-select q p [] h = h
  not-exists-select q p (x ∷ xs) h = ground (arith, not-exists-select q p xs)

  pub exists-update :
      (q p : A → Bool) (f : A → A) (xs : List A)
      → ((x : A) → q (f x) ≡ q x)
      → exists q (update p f xs) ≡ exists q xs
  exists-update q p f [] k = refl
  exists-update q p f (x ∷ xs) k = ground (arith, k x, exists-update q p f xs k)

  -- A row that is found passes the test, and is in the table.
  pub first-passes : (p : A → Bool) (xs : List A) (x : A) → first p xs ≡ some x → p x ≡ true
  first-passes p [] x h = cc
  first-passes p (y ∷ ys) x h = ground (arith, first-passes p ys x)

  pub first-exists : (p : A → Bool) (xs : List A) → (first p xs ≡ none) ↔ (exists p xs ≡ false)
  first-exists p [] = (λ _. refl, λ _. refl)
  first-exists p (x ∷ xs) = elim (Bool-cases (p x)) [
    | inl e ↦ (λ h. ground arith, λ h. ground arith)
    | inr e ↦
        (λ h. ground (arith, (first-exists p xs).0), λ h. ground (arith, (first-exists p xs).1))
  ]

  -- A row that passes `p`, where none passes `p` and `q`, is left when the rows of `q` go.
  pub exists-delete :
      (p q : A → Bool) (xs : List A)
      → exists p xs ≡ true
      → exists (λ x. p x && q x) xs ≡ false
      → exists p (delete q xs) ≡ true
  exists-delete p q [] h k = h
  exists-delete p q (x ∷ xs) h k = ground (arith, exists-delete p q xs)

-- UNIQUE: no two rows clash.
module _ {ℓ} {A : Type ℓ} (clash : A → A → Bool) where
  abbrev pub NoClash : List A → Type 0
  NoClash [] = Unit
  NoClash (x ∷ xs) = (exists (clash x) xs ≡ false) × NoClash xs

  pub NoClash-select : (p : A → Bool) (xs : List A) → NoClash xs → NoClash (select p xs)
  NoClash-select p [] h = h
  NoClash-select p (x ∷ xs) h =
      ground (arith, not-exists-select (clash x) p xs, NoClash-select p xs h.1)

  pub NoClash-update :
      (p : A → Bool) (f : A → A) (xs : List A)
      → ((x y : A) → clash (f x) y ≡ clash x y)
      → ((x y : A) → clash x (f y) ≡ clash x y)
      → NoClash xs
      → NoClash (update p f xs)
  NoClash-update p f [] left right h = h
  NoClash-update p f (x ∷ xs) left right h = elim (Bool-cases (p x)) [
    | inl e ↦ rw e (
      exists-update (clash (f x)) p f xs (right (f x))
          ∙ exists-ext (clash (f x)) (clash x) xs (left x)
          ∙ h.0,
      NoClash-update p f xs left right h.1,
    )
    | inr e ↦
        rw e (exists-update (clash x) p f xs (right x) ∙ h.0, NoClash-update p f xs left right h.1)
  ]

module _ {ℓ κ} {A : Type ℓ} where
  abbrev pub All : (A → Type κ) → List A → Type κ
  All P [] = Unit
  All P (x ∷ xs) = P x × All P xs

  pub All-select : (P : A → Type κ) (p : A → Bool) (xs : List A) → All P xs → All P (select p xs)
  All-select P p [] h = h
  All-select P p (x ∷ xs) h = ground (arith, All-select P p xs h.1)

  pub All-imp : (P Q : A → Type κ) (xs : List A) → ((x : A) → P x → Q x) → All P xs → All Q xs
  All-imp P Q [] f h = h
  All-imp P Q (x ∷ xs) f h = (f x h.0, All-imp P Q xs f h.1)

  pub All-update :
      (P : A → Type κ) (p : A → Bool) (f : A → A) (xs : List A)
      → ((x : A) → P x → P (f x))
      → All P xs
      → All P (update p f xs)
  All-update P p f [] k h = h
  All-update P p f (x ∷ xs) k h = elim (Bool-cases (p x)) [
    | inl e ↦ rw e (k x h.0, All-update P p f xs k h.1)
    | inr e ↦ rw e (h.0, All-update P p f xs k h.1)
  ]

  pub All-select_imp :
      (P Q : A → Type κ) (p : A → Bool) (xs : List A)
      → ((x : A) → p x ≡ true → P x → Q x)
      → All P xs
      → All Q (select p xs)
  All-select_imp P Q p [] f h = h
  All-select_imp P Q p (x ∷ xs) f h = elim (Bool-cases (p x)) [
    | inl e ↦ rw e (f x e h.0, All-select_imp P Q p xs f h.1)
    | inr e ↦ rw e (All-select_imp P Q p xs f h.1)
  ]

  pub All-update_imp :
      (P Q : A → Type κ) (p : A → Bool) (f : A → A) (xs : List A)
      → ((x : A) → p x ≡ true → Q (f x))
      → ((x : A) → p x ≡ false → P x → Q x)
      → All P xs
      → All Q (update p f xs)
  All-update_imp P Q p f [] hit miss h = h
  All-update_imp P Q p f (x ∷ xs) hit miss h = elim (Bool-cases (p x)) [
    | inl e ↦ rw e (hit x e, All-update_imp P Q p f xs hit miss h.1)
    | inr e ↦ rw e (miss x e h.0, All-update_imp P Q p f xs hit miss h.1)
  ]
