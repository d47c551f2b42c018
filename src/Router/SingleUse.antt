-- ===== src/Router/SingleUse.antt =====
-- Tokens that have been used, and the enrollments that come after.
use oh_my_lan.Prelude.{
  ◌≡◌, ◌≢◌, refl, String, Bool, true, false, some, List, [], ◌∷◌, All, first, arith, inl, inr,
  Bool-cases, Option-cases,
}
use oh_my_lan.Exec
use oh_my_lan.Exec.{Result, ok, err, Exec, ◌>>=◌, ◌>>◌, gets, refuse_if, on_error}
use oh_my_lan.Exec.Keeps.{Keeps, Keeps-gets, Keeps-refuse_if, Keeps-on_error}
use oh_my_lan.Store.{EnrollmentToken, Store, Error, statement, found, take_fault}
use oh_my_lan.Store.Tokens.{hash_is, get_enrollment_token_by_hash}
use oh_my_lan.Store.Keeps.{at_get_token}
use oh_my_lan.Store.Keeps.Used.{IsUsed, IsUsed-StoreKeeps}
use oh_my_lan.Server.{Server, on_store, after_store}
use oh_my_lan.Server.Keeps.{InStore, Keeps-on_store}
use oh_my_lan.Enroll.{EnrollError, EnrolledDevice, enroll_device, lookup_error, is_used}
use oh_my_lan.Router.{Outside, Event, live}
use oh_my_lan.Router.Invariant.{live-InStore}

-- Code that does not return where `P` holds.
record Refuses {S E A : Type 0} (P : S → Type 0) (m : Exec S E A) : Type 0 where
  run : (s : S) → P s → (a : A) → (m s).0 ≢ ok a

module _ {S E A B : Type 0} {P : S → Type 0} where
  continue-Refuses :
      (r : Result E A) (f : A → Exec S E B) (s : S)
      → P s
      → ((a : A) → r ≡ ok a → Refuses P (f a))
      → (b : B) → (Exec.continue r f s).0 ≢ ok b
  continue-Refuses (ok a) f s h k b e = (k a refl).run s h b e
  continue-Refuses (err x) f s h k b e = cc

  -- What follows refuses the values that the first part can return.
  Refuses-bind :
      (m : Exec S E A) (f : A → Exec S E B)
      → Keeps P m
      → ((s : S) → P s → (a : A) → (m s).0 ≡ ok a → Refuses P (f a))
      → Refuses P (m >>= f)
  unfolding ◌>>=◌
  Refuses-bind m f k g = record {
    run = λ s h. let (r, s') = m s in continue-Refuses r f s' (k.run s h) (λ a e. g s h a e);
  }

Refuses-refuse_if :
    {S E B : Type 0} {P : S → Type 0} (b : Bool) (x : E) (f : Unit {0} → Exec S E B)
    → b ≡ true
    → Refuses P (refuse_if b x >>= f)
unfolding ◌>>=◌ refuse_if
Refuses-refuse_if true x f e = record { run = λ s h a same. cc }
Refuses-refuse_if false x f e = record { run = λ s h a same. cc }

first-All :
    (p : EnrollmentToken → Bool) (R : EnrollmentToken → Type 0) (ts : List EnrollmentToken)
    (t : EnrollmentToken)
    → All (λ u. p u ≡ true → R u) ts
    → first p ts ≡ some t
    → R t
first-All p R [] t h e = absurd cc
first-All p R (u ∷ ts) t h e = elim (Bool-cases (p u)) [
  | inl here ↦ let same : u ≡ t = ground (arith, here, e) in rw (← same) (h.0 here)
  | inr there ↦ first-All p R ts t h.1 (ground (arith, there, e))
]

-- The row that is read has been used.
found-used :
    (hash : String) (s s' : Store) (t : EnrollmentToken)
    → IsUsed hash s
    → (found (first (hash_is hash) s.tokens) s').0 ≡ ok t
    → is_used t.used_at ≡ true
unfolding found
found-used hash s s' t h e = elim (Option-cases (first (hash_is hash) s.tokens)) [
  | inl nothing ↦ absurd (cc (nothing, e))
  | inr row ↦
      first-All (hash_is hash) (λ u. is_used u.used_at ≡ true) s.tokens t h.used (cc (row.1, e))
]

-- The read, with the schedule of failures apart.
abbrev fetch : String → Store → List Bool → Result Error EnrollmentToken
fetch hash s l =
    let (r, s') = take_fault s l in
    (Exec.continue r (λ _ k. found (first (hash_is hash) k.tokens) k) s').0

fetch-used :
    (hash : String) (l : List Bool) (s : Store) (t : EnrollmentToken)
    → IsUsed hash s
    → fetch hash s l ≡ ok t
    → is_used t.used_at ≡ true
fetch-used hash [] s t h r = found-used hash s s t h r
fetch-used hash (true ∷ l) s t h r = absurd (cc r)
fetch-used hash (false ∷ l) s t h r = found-used hash s (record s { faults = l }) t h r

lifted :
    (w : Server) (p : Result Error EnrollmentToken × Store) (t : EnrollmentToken)
    → Exec.recover lookup_error (after_store w p).0 ≡ ok t
    → p.0 ≡ ok t
lifted w (ok u, s) t r = cc r
lifted w (err x, s) t r = absurd (cc r)

-- The same of the read in a request.
read-used :
    (hash : String) (w : Server) (t : EnrollmentToken)
    → InStore (IsUsed hash) w
    → (on_error lookup_error (on_store (get_enrollment_token_by_hash hash)) w).0 ≡ ok t
    → is_used t.used_at ≡ true
unfolding on_error on_store get_enrollment_token_by_hash statement ◌>>=◌ gets
read-used hash w t h r =
    fetch-used hash w.store.faults w.store t h.at
      (lifted w (get_enrollment_token_by_hash hash w.store) t r)

weaken :
    {S E A : Type 0} {P Q : S → Type 0} (m : Exec S E A)
    → ((s : S) → Q s → P s)
    → Refuses P m
    → Refuses Q m
weaken m f r = record { run = λ s h. r.run s (f s h) }

hash_read :
    (raw hash hash' : String) (w : Server)
    → w.env.hash raw ≡ hash
    → (gets {E = EnrollError} (λ w. w.env.hash raw) w).0 ≡ ok hash'
    → hash' ≡ hash
unfolding gets
hash_read raw hash hash' w h e = cc (h, e)

enroll_device-Refuses :
    (raw name hash : String)
    → Refuses (λ w. InStore (IsUsed hash) w × (w.env.hash raw ≡ hash)) (enroll_device raw name)
unfolding enroll_device
enroll_device-Refuses raw name hash = Refuses-bind _ _ (Keeps-refuse_if _ _) λ s h _ _.
    Refuses-bind _ _ (Keeps-refuse_if _ _) λ s h _ _. Refuses-bind _ _ (Keeps-gets _) λ s h hash' e.
      weaken _ (λ w k. k.0)
        (rw (hash_read raw hash hash' s h.1 e) (
          Refuses-bind _ _
            (Keeps-on_error _ _ (Keeps-on_store _ (at_get_token (IsUsed-StoreKeeps hash) hash)))
            (λ w k tok read. Refuses-refuse_if _ _ _ (read-used hash w tok k read))))

-- Once a token of the hash has been used, then after any requests, periodic tasks, restarts and
-- failures, in any order, an enrollment with a text of that hash does not succeed.
pub live-enroll_device :
    (o : Outside) (es : List Event) (w : Server) (raw name hash : String)
    → IsUsed hash w.store
    → (live o es w).env.hash raw ≡ hash
    → (d : EnrolledDevice) → (enroll_device raw name (live o es w)).0 ≢ ok d
live-enroll_device o es w raw name hash h same =
    (enroll_device-Refuses raw name hash).run (live o es w)
      (live-InStore (IsUsed-StoreKeeps hash) o es w (record { at = h }), same)
