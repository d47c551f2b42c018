-- ===== src/Exec/Establishes.antt =====
-- What holds after code that has returned, whatever held before.
use oh_my_lan.Prelude.{◌≡◌, refl, Bool, true, false, if◌then◌else◌}
use oh_my_lan.Exec
use oh_my_lan.Exec.{Result, ok, err, Exec, on_error, attempt, ◌>>=◌}
use oh_my_lan.Exec.Keeps.{Keeps}

pub record Establishes {S E A : Type 0} (m : Exec S E A) (Q : S → Type 0) : Type 0 where
  pub run : (s : S) (a : A) → (m s).0 ≡ ok a → Q (m s).1

module _ {S E A B : Type 0} {Q : S → Type 0} where
  after_first :
      (r : Result E A) (f : A → Exec S E B) (s : S)
      → ((a : A) → Establishes (f a) Q)
      → (b : B) → (Exec.continue r f s).0 ≡ ok b
      → Q (Exec.continue r f s).1
  after_first (ok a) f s k b e = (k a).run s b e
  after_first (err x) f s k b e = absurd (cc e)

  -- by what comes last
  pub Establishes-last :
      (m : Exec S E A) (f : A → Exec S E B)
      → ((a : A) → Establishes (f a) Q)
      → Establishes (m >>= f) Q
  unfolding ◌>>=◌
  Establishes-last m f k = record { run = λ s. let (r, s') = m s in after_first r f s' k }

  after_kept :
      (r : Result E A) (f : A → Exec S E B) (s : S)
      → ((a : A) → r ≡ ok a → Q s)
      → ((a : A) → Keeps Q (f a))
      → (b : B) → (Exec.continue r f s).0 ≡ ok b
      → Q (Exec.continue r f s).1
  after_kept (ok a) f s q k b e = (k a).run s (q a refl)
  after_kept (err x) f s q k b e = absurd (cc e)

  -- by what comes first, if the rest keeps it
  pub Establishes-first :
      (m : Exec S E A) (f : A → Exec S E B)
      → Establishes m Q
      → ((a : A) → Keeps Q (f a))
      → Establishes (m >>= f) Q
  unfolding ◌>>=◌
  Establishes-first m f q k = record {
    run = λ s. let (r, s') = m s in after_kept r f s' (q.run s) k;
  }

pub recovered :
    {E F A : Type 0} → (f : E → F) (r : Result E A) (a : A) → Exec.recover f r ≡ ok a → r ≡ ok a
recovered f (ok b) a e = cc e
recovered f (err x) a e = absurd (cc e)

pub Establishes-on_error :
    {S E F A : Type 0} {Q : S → Type 0}
    → (f : E → F) (m : Exec S E A) → Establishes m Q
    → Establishes (on_error f m) Q
unfolding on_error
Establishes-on_error f m q = record { run = λ s a e. q.run s a (recovered f (m s).0 a e) }

-- a check that did not stop, and what followed
pub passed :
    {E A : Type 0} (a : Bool) (x : E) (r : Result E A) (y : A)
    → (if a then err x else r) ≡ ok y
    → (a ≡ false) × (r ≡ ok y)
passed true x r y e = absurd (cc e)
passed false x r y e = (refl, e)
