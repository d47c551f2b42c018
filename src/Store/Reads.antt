-- ===== src/Store/Reads.antt =====
-- Reads of the store: what leaves the tables as they are, and what a lookup returns.
use oh_my_lan.Prelude.{◌≡◌, refl, ap, ◌∙◌, Bool, true, false, List, [], ◌∷◌, Option, none, some}
use oh_my_lan.Exec
use oh_my_lan.Exec.{Result, ok, err, Exec, gets, ◌>>=◌, ◌>>◌}
use oh_my_lan.Exec.Undoes.{Undoes, Reads, IsPreorder}
use oh_my_lan.Store.{Store, Error, take_fault, statement, found}
use oh_my_lan.Server.{Server, Fault, on_store, after_store}

-- the same tables, after a part of the schedule of failures
abbrev pub SameTables : Store → Store → Type 0
SameTables s t = t ≡ record s { faults = t.faults }

abbrev pub SameStore : Server → Server → Type 0
SameStore w u = SameTables w.store u.store

pub SameTables-IsPreorder : IsPreorder SameTables
SameTables-IsPreorder = record {
  same = λ s. refl;
  then = λ s t u h k. k ∙ ap (λ (x : Store). record x { faults = u.faults }) h;
}

pub SameStore-IsPreorder : IsPreorder SameStore
SameStore-IsPreorder = record {
  same = λ w. refl;
  then = λ w u v. SameTables-IsPreorder.then w.store u.store v.store;
}

take_fault-SameTables : (s : Store) (l : List Bool) → SameTables s (take_fault s l).1
take_fault-SameTables s [] = refl
take_fault-SameTables s (true ∷ l) = refl
take_fault-SameTables s (false ∷ l) = refl

found-same : {A : Type 0} → (o : Option A) (s : Store) → (found o s).1 ≡ s
unfolding found
found-same none s = refl
found-same (some a) s = refl

-- one row, or an error
abbrev pub lookup : {A : Type 0} → (Store → Option A) → Exec Store Error A
lookup f = do statement; row ← gets f; found row

module _ {A : Type 0} (f : Store → Option A) where
  fetched :
      (s : Store) (l : List Bool)
      → SameTables s (let (r, s') = take_fault s l in Exec.continue r (λ _ k. found (f k) k) s').1
  fetched s [] = rw (found-same (f s) s) refl
  fetched s (true ∷ l) = refl
  fetched s (false ∷ l) =
      rw (found-same (f (record s { faults = l })) (record s { faults = l })) refl

  pub Reads-lookup : Reads SameTables (lookup f)
  unfolding statement gets ◌>>=◌
  Reads-lookup = record { run = λ s. fetched s s.faults }

  found-ok : (o : Option A) (s : Store) (a : A) → (found o s).0 ≡ ok a → o ≡ some a
  unfolding found
  found-ok none s a e = absurd (cc e)
  found-ok (some b) s a e = cc e

  returned :
      (s : Store) (l : List Bool) (a : A)
      → (let (r, s') = take_fault s l in Exec.continue r (λ _ k. found (f k) k) s').0 ≡ ok a
      → (k : List Bool) × (f (record s { faults = k }) ≡ some a)
  returned s [] a e = (s.faults, found-ok (f s) s a e)
  returned s (true ∷ l) a e = absurd (cc e)
  returned s (false ∷ l) a e =
      (l, found-ok (f (record s { faults = l })) (record s { faults = l }) a e)

  -- What a lookup returns is in the tables.
  pub lookup-ok :
      (s : Store) (a : A)
      → (lookup f s).0 ≡ ok a
      → (k : List Bool) × (f (record s { faults = k }) ≡ some a)
  unfolding statement gets ◌>>=◌
  lookup-ok s a e = returned s s.faults a e

module _ {A : Type 0} where
  stored_same :
      (w : Server) (r : Result Error A × Store)
      → SameTables w.store r.1
      → SameStore w (after_store w r).1
  stored_same w (ok a, s) h = h
  stored_same w (err x, s) h = h

  pub Reads-on_store : (m : Exec Store Error A) → Reads SameTables m → Reads SameStore (on_store m)
  unfolding on_store
  Reads-on_store m r = record { run = λ w. stored_same w (m w.store) (r.run w.store) }

  stored_undone :
      (w : Server) (r : Result Error A × Store)
      → ((x : Error) → r.0 ≡ err x → SameTables w.store r.1)
      → (x : Fault) → (after_store w r).0 ≡ err x
      → SameStore w (after_store w r).1
  stored_undone w (ok a, s) h x e = absurd (cc e)
  stored_undone w (err y, s) h x e = h y refl

  pub Undoes-on_store :
      (m : Exec Store Error A) → Undoes SameTables m → Undoes SameStore (on_store m)
  unfolding on_store
  Undoes-on_store m u = record { run = λ w. stored_undone w (m w.store) (u.run w.store) }
