-- ===== src/Exec/Triple.antt =====
-- What holds of the result and of the state after code that has returned, from what held before.
use oh_my_lan.Prelude.{◌≡◌, refl, Bool, true, false}
use oh_my_lan.Exec
use oh_my_lan.Exec.{Result, ok, err, Exec, pure, gets, refuse_if, on_error, ◌>>=◌}
use oh_my_lan.Exec.Keeps.{Keeps}
use oh_my_lan.Exec.Establishes.{recovered}

pub record Triple {S E A : Type 0} (P : S → Type 0) (m : Exec S E A) (Q : A → S → Type 0)
    : Type 0 where
  pub run : (s : S) → P s → (a : A) → (m s).0 ≡ ok a → Q a (m s).1

module _ {S E A B : Type 0} where
  after :
      (Q : A → S → Type 0) (R : B → S → Type 0) (r : Result E A) (f : A → Exec S E B) (s : S)
      → ((a : A) → r ≡ ok a → Q a s)
      → ((a : A) → Triple (Q a) (f a) R)
      → (b : B) → (Exec.continue r f s).0 ≡ ok b
      → R b (Exec.continue r f s).1
  after Q R (ok a) f s q k b e = (k a).run s (q a refl) b e
  after Q R (err x) f s q k b e = absurd (cc e)

  pub Triple-bind :
      {P : S → Type 0} (Q : A → S → Type 0) {R : B → S → Type 0} (m : Exec S E A)
      (f : A → Exec S E B)
      → Triple P m Q
      → ((a : A) → Triple (Q a) (f a) R)
      → Triple P (m >>= f) R
  unfolding ◌>>=◌
  Triple-bind Q {R} m f q k = record {
    run = λ s h. let (r, s') = m s in after Q R r f s' (q.run s h) k;
  }

module _ {S E A : Type 0} {P : S → Type 0} where
  pub Triple-keeps : (m : Exec S E A) → Keeps P m → Triple P m (λ _ s. P s)
  Triple-keeps m k = record { run = λ s h a e. k.run s h }

  pub Triple-pure :
      (a : A) {Q : A → S → Type 0} → ((s : S) → P s → Q a s) → Triple {E = E} P (pure a) Q
  unfolding pure
  Triple-pure a {Q} k = record { run = λ s h b e. let same : a ≡ b = cc e in rw (← same) (k s h) }

module _ {S E : Type 0} where
  refused :
      (P : S → Type 0) (b : Bool) (e : E) (s : S) (u : Unit {0})
      → P s
      → (refuse_if b e s).0 ≡ ok u
      → (b ≡ false) × P (refuse_if b e s).1
  unfolding refuse_if
  refused P true e s u h r = absurd (cc r)
  refused P false e s u h r = (refl, h)

  -- A test that did not stop has failed.
  pub Triple-refuse_if :
      {P : S → Type 0} (b : Bool) (e : E) → Triple P (refuse_if b e) (λ _ s. (b ≡ false) × P s)
  Triple-refuse_if {P} b e = record { run = λ s h u r. refused P b e s u h r }

module _ {S E F A : Type 0} {P : S → Type 0} where
  pub Triple-on_error :
      (f : E → F) {Q : A → S → Type 0} (m : Exec S E A) → Triple P m Q → Triple P (on_error f m) Q
  unfolding on_error
  Triple-on_error f m q = record { run = λ s h a e. q.run s h a (recovered f (m s).0 a e) }

module _ {S E A : Type 0} where
  pub Triple-any : (P : S → Type 0) (m : Exec S E A) → Triple P m (λ _ _. Unit {0})
  Triple-any P m = record { run = λ s h a e. tt }

  -- a fact that is not about the state
  pub Triple-given :
      {X : Type 0} {Q : A → S → Type 0} (m : Exec S E A)
      → (X → Triple (λ _. Unit {0}) m Q)
      → Triple (λ _. X) m Q
  Triple-given m k = record { run = λ s x. (k x).run s tt }

  pub Triple-gets :
      {P : S → Type 0} {Q : A → S → Type 0} (f : S → A)
      → ((s : S) → P s → Q (f s) s)
      → Triple {E = E} P (gets f) Q
  unfolding gets
  Triple-gets {Q = Q} f k = record {
    run = λ s h a e. let same : f s ≡ a = cc e in rw (← same) (k s h);
  }
