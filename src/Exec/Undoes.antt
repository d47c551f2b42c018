-- ===== src/Exec/Undoes.antt =====
-- Code that, if it fails, leaves the state related to the one before, as by a transaction.
use oh_my_lan.Prelude.{◌≡◌, refl, Bool, true, false}
use oh_my_lan.Exec
use oh_my_lan.Exec.{Result, ok, err, Exec, pure, raise, gets, refuse_if, on_error, ◌>>=◌}

pub record Undoes {S E A : Type 0} (R : S → S → Type 0) (m : Exec S E A) : Type 0 where
  pub run : (s : S) (x : E) → (m s).0 ≡ err x → R s (m s).1

-- code that leaves it so in any case
pub record Reads {S E A : Type 0} (R : S → S → Type 0) (m : Exec S E A) : Type 0 where
  pub run : (s : S) → R s (m s).1

pub record IsPreorder {S : Type 0} (R : S → S → Type 0) : Type 0 where
  pub same : (s : S) → R s s
  pub then : (s t u : S) → R s t → R t u → R s u

module _ {S : Type 0} {R : S → S → Type 0} (o : IsPreorder R) where
  module _ {E A B : Type 0} where
    after_read :
        (s : S) (r : Result E A) (f : A → Exec S E B) (t : S)
        → R s t
        → ((a : A) → Undoes R (f a))
        → (x : E) → (Exec.continue r f t).0 ≡ err x
        → R s (Exec.continue r f t).1
    after_read s (ok a) f t h k x e = o.then s t _ h ((k a).run t x e)
    after_read s (err y) f t h k x e = h

    -- what only reads comes first
    pub Undoes-read :
        (m : Exec S E A) (f : A → Exec S E B)
        → Reads R m
        → ((a : A) → Undoes R (f a))
        → Undoes R (m >>= f)
    unfolding ◌>>=◌
    Undoes-read m f r k = record { run = λ s. let (x, t) = m s in after_read s x f t (r.run s) k }

    after_last :
        (s : S) (r : Result E A) (f : A → B) (t : S)
        → ((x : E) → r ≡ err x → R s t)
        → (x : E) → (Exec.continue r (λ a. pure (f a)) t).0 ≡ err x
        → R s (Exec.continue r (λ a. pure (f a)) t).1
    unfolding pure
    after_last s (ok a) f t h x e = absurd (cc e)
    after_last s (err y) f t h x e = h y refl

    -- what comes last cannot fail
    pub Undoes-last : (m : Exec S E A) (f : A → B) → Undoes R m → Undoes R (m >>= λ a. pure (f a))
    unfolding ◌>>=◌
    Undoes-last m f u = record { run = λ s. let (x, t) = m s in after_last s x f t (u.run s) }

  module _ {E A : Type 0} where
    pub Reads-gets : (f : S → A) → Reads {E = E} R (gets f)
    unfolding gets
    Reads-gets f = record { run = λ s. o.same s }

  module _ {E : Type 0} where
    stays : (b : Bool) (e : E) (s : S) → R s (refuse_if b e s).1
    unfolding refuse_if
    stays true e s = o.same s
    stays false e s = o.same s

    pub Reads-refuse_if : (b : Bool) (e : E) → Reads R (refuse_if b e)
    Reads-refuse_if b e = record { run = stays b e }

failed_before :
    {E F A : Type 0}
    → (f : E → F) (r : Result E A) (y : F) → Exec.recover f r ≡ err y
    → (x : E) × (r ≡ err x)
failed_before f (ok a) y e = absurd (cc e)
failed_before f (err x) y e = (x, refl)

module _ {S E F A : Type 0} {R : S → S → Type 0} where
  pub Reads-on_error : (f : E → F) (m : Exec S E A) → Reads R m → Reads R (on_error f m)
  unfolding on_error
  Reads-on_error f m r = record { run = r.run }

  pub Undoes-on_error : (f : E → F) (m : Exec S E A) → Undoes R m → Undoes R (on_error f m)
  unfolding on_error
  Undoes-on_error f m u = record {
    run = λ s y e. let (x, e') = failed_before f (m s).0 y e in u.run s x e';
  }
