-- ===== src/Exec.antt =====
-- Go code that reads and writes a state and may return early: what was written before an error
-- stays written, so the state comes back beside the error too.
pub mod Keeps
pub mod Establishes
pub mod Triple
pub mod Undoes
use oh_my_lan.Prelude.{Bool, true, false}

pub data Result (E A : Type 0) : Type 0 where
  ok : A → Result E A
  err : E → Result E A

abbrev pub Exec : Type 0 → Type 0 → Type 0 → Type 0
Exec S E A = S → Result E A × S

module _ {S E A : Type 0} where
  unfoldable pub pure : A → Exec S E A
  pure a s = (ok a, s)

  unfoldable pub raise : E → Exec S E A
  raise e s = (err e, s)

  unfoldable pub gets : (S → A) → Exec S E A
  gets f s = (ok (f s), s)

module _ {S E : Type 0} where
  unfoldable pub modify : (S → S) → Exec S E (Unit {0})
  modify f s = (ok tt, f s)

  -- `if bad { return e }`
  unfoldable pub refuse_if : Bool → E → Exec S E (Unit {0})
  refuse_if true e s = (err e, s)
  refuse_if false e s = (ok tt, s)

module _ {S E A B : Type 0} where
  abbrev pub continue : Result E A → (A → Exec S E B) → Exec S E B
  continue (ok a) f s = f a s
  continue (err e) f s = (err e, s)

  infixl 10 ◌>>=◌ ◌>>◌
  unfoldable pub ◌>>=◌ : Exec S E A → (A → Exec S E B) → Exec S E B
  unfolding pure raise gets modify refuse_if
  ◌>>=◌ m f s = let (r, s') = m s in continue r f s'

  abbrev pub ◌>>◌ : Exec S E A → Exec S E B → Exec S E B
  m >> n = m >>= λ _. n

abbrev pub recover : {E F A : Type 0} → (E → F) → Result E A → Result F A
recover f (ok a) = ok a
recover f (err e) = err (f e)

module _ {S E F A : Type 0} where
  -- `if err != nil { return f(err) }`
  unfoldable pub on_error : (E → F) → Exec S E A → Exec S F A
  on_error f m s = let (r, s') = m s in (recover f r, s')

  -- the result as a value, for code that tests the error itself or drops it
  unfoldable pub attempt : Exec S E A → Exec S F (Result E A)
  attempt m s = let (r, s') = m s in (ok r, s')
