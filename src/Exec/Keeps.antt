-- ===== src/Exec/Keeps.antt =====
-- Invariants of code: what holds before it runs holds after it, whether it returns or stops early.
use oh_my_lan.Prelude.{◌≡◌, refl, Bool, true, false, if◌then◌else◌}
use oh_my_lan.Exec
use oh_my_lan.Exec.{
  Result, ok, err, Exec, pure, raise, gets, modify, refuse_if, ◌>>=◌, on_error, attempt,
}

pub record Keeps {S E A : Type 0} (P : S → Type 0) (m : Exec S E A) : Type 0 where
  pub run : (s : S) → P s → P (m s).1

module _ {S E A : Type 0} {P : S → Type 0} where
  pub Keeps-pure : (a : A) → Keeps {E = E} P (pure a)
  unfolding pure
  Keeps-pure a = record { run = λ s h. h }

  pub Keeps-raise : (e : E) → Keeps {A = A} P (raise e)
  unfolding raise
  Keeps-raise e = record { run = λ s h. h }

  pub Keeps-gets : (f : S → A) → Keeps {E = E} P (gets f)
  unfolding gets
  Keeps-gets f = record { run = λ s h. h }

  pub Keeps-if :
      (b : Bool) (m n : Exec S E A) → Keeps P m → Keeps P n → Keeps P (if b then m else n)
  Keeps-if true m n km kn = km
  Keeps-if false m n km kn = kn

module _ {S E : Type 0} {P : S → Type 0} where
  pub Keeps-refuse_if : (b : Bool) (e : E) → Keeps P (refuse_if b e)
  unfolding refuse_if
  Keeps-refuse_if true e = record { run = λ s h. h }
  Keeps-refuse_if false e = record { run = λ s h. h }

  pub Keeps-modify : (f : S → S) → ((s : S) → P s → P (f s)) → Keeps {E = E} P (modify f)
  unfolding modify
  Keeps-modify f k = record { run = k }

module _ {S E F A : Type 0} {P : S → Type 0} where
  pub Keeps-on_error : (f : E → F) (m : Exec S E A) → Keeps P m → Keeps P (on_error f m)
  unfolding on_error
  Keeps-on_error f m k = record { run = k.run }

  pub Keeps-attempt : (m : Exec S E A) → Keeps P m → Keeps {E = F} P (attempt m)
  unfolding attempt
  Keeps-attempt m k = record { run = k.run }

module _ {S E A B : Type 0} {P : S → Type 0} where
  continue-Keeps :
      (r : Result E A) (f : A → Exec S E B) (s : S)
      → ((a : A) → Keeps P (f a))
      → P s
      → P (Exec.continue r f s).1
  continue-Keeps (ok a) f s k h = (k a).run s h
  continue-Keeps (err e) f s k h = h

  pub Keeps-bind :
      (m : Exec S E A) (f : A → Exec S E B)
      → Keeps P m
      → ((a : A) → Keeps P (f a))
      → Keeps P (m >>= f)
  unfolding ◌>>=◌
  Keeps-bind m f km kf = record {
    run = λ s h. let (r, s') = m s in continue-Keeps r f s' kf (km.run s h);
  }

-- the state after a test, from the states after its branches
pub branch :
    {R S : Type 0} (P : S → Type 0) (b : Bool) (x y : R × S)
    → (b ≡ true → P x.1)
    → (b ≡ false → P y.1)
    → P (if b then x else y).1
branch P true x y t f = t refl
branch P false x y t f = f refl

pub ruleset keeps_rules = (
  Keeps-pure, Keeps-raise, Keeps-gets, Keeps-if, Keeps-refuse_if, Keeps-on_error, Keeps-attempt,
  Keeps-bind,
)
