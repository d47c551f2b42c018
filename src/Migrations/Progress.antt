-- ===== src/Migrations/Progress.antt =====
-- What the migrations have done to a database, after any starts of the server and failures.
use oh_my_lan.Prelude.{
  ℕ, suc, ◌≤◌, ◌≡◌, refl, String, Bool, true, false, Option, none, some, List, [], ◌∷◌, arith, ℤ,
  pos, greater, int_eq, exists, sort_by, inl, inr, Bool-cases,
}
use oh_my_lan.Exec
use oh_my_lan.Exec.{Result, ok, err, Exec, pure, gets, modify, refuse_if, ◌>>=◌, ◌>>◌}
use oh_my_lan.Migrations.{
  Migration, DirEntry, MigrateError, cannot_register, cannot_commit, cannot_begin, script_failed,
  cannot_create, no_version, contiguous, checked_order, in_order, load_migrations, parse_entries,
  Database, take_fault, driver_call, or_failed, register_migration, apply_migration, apply_all,
  loaded, migrate,
}
use oh_my_lan.Migrations.Versions.{
  Applied, next, Numbered, max_version-Numbered, not-known, contiguous-head, position,
}

module _ {T : Type 0} (script : String → T → Option T) (all : List Migration) (start : T) where
  -- where the database stands
  abbrev pub At : List Migration → Database T → Type 0
  At rest d = Applied script all start rest d.tables d.applied

  -- after the transaction of the next migration
  abbrev Went :
      Migration
      → List Migration
      → List (ℤ × String)
      → Result MigrateError (Unit {0}) × Database T
      → Type 0
  Went m rest rows (ok _, d) = At rest d × (d.applied ≡ (m.version, m.name) ∷ rows)
  Went m rest rows (err e, d) = At (m ∷ rest) d

  -- A call of the driver, whose failure leaves the database where it stands.
  through_call :
      (m : Migration) (rest : List Migration) (rows : List (ℤ × String)) (e : MigrateError)
      (f : Unit {0} → Exec (Database T) MigrateError (Unit {0})) (d : Database T)
      → At (m ∷ rest) d
      → ((l : List Bool) → Went m rest rows (f tt (record d { faults = l })))
      → Went m rest rows ((driver_call e >>= f) d)
  unfolding driver_call ◌>>=◌
  through_call m rest rows e f d here k = by_fault d.faults
    where
      by_fault :
          (l : List Bool)
          → Went m rest rows (let (r, d') = take_fault e d l in Exec.continue r f d')
      by_fault [] = k d.faults
      by_fault (true ∷ l) = here
      by_fault (false ∷ l) = k l

  -- The end of the transaction, once the script has run.
  register_migration-Went :
      (m : Migration) (rest : List Migration) (u : T) (d : Database T)
      → At (m ∷ rest) d
      → script m.sql d.tables ≡ some u
      → exists (λ row. int_eq row.0 m.version) d.applied ≡ false
      → Went m rest d.applied (register_migration m u d)
  unfolding register_migration gets refuse_if modify ◌>>=◌
  register_migration-Went m rest u d here e new =
      through_call m rest d.applied cannot_register _ d here (λ l. rw new (
        through_call m rest d.applied cannot_commit _ (record d { faults = l }) here
          (λ l'. (next here e, refl))))

  apply_migration-Went :
      (m : Migration) (rest : List Migration) (d : Database T)
      → At (m ∷ rest) d
      → exists (λ row. int_eq row.0 m.version) d.applied ≡ false
      → Went m rest d.applied (apply_migration script m d)
  unfolding apply_migration gets or_failed ◌>>=◌
  apply_migration-Went m rest d here new = through_call m rest d.applied cannot_begin _ d here (λ l.
      through_call m rest d.applied script_failed _ (record d { faults = l }) here
        (λ l'. by_script (script m.sql d.tables) refl l'))
    where
      by_script :
          (o : Option T)
          → script m.sql d.tables ≡ o
          → (l : List Bool)
          → Went m rest d.applied ((or_failed o >>= register_migration m) (record d { faults = l }))
      by_script none e l = here
      by_script (some u) e l = register_migration-Went m rest u (record d { faults = l }) here e new

  -- how the migrations end: all of them applied, or an error with the database somewhere between
  abbrev pub Ended : Result MigrateError (Unit {0}) × Database T → Type 0
  Ended (ok _, d) = At [] d
  Ended (err e, d) = (rest : List Migration) × At rest d

  apply_all-Ended :
      (rest : List Migration) (k : ℕ) (c : ℕ) (d : Database T)
      → contiguous k rest ≡ true
      → c ≤ k
      → Numbered k d.applied
      → At rest d
      → Ended (apply_all script (pos c) rest d)
  unfolding apply_all ◌>>=◌ pure
  apply_all-Ended [] k c d more l rows here = here
  apply_all-Ended (m ∷ rest) k c d more l rows here =
      let (v, more') = contiguous-head k m rest more in
      let newer : greater m.version (pos c) ≡ true = rw v (ground arith) in
      let new : exists (λ row. int_eq row.0 m.version) d.applied ≡ false =
        rw v (not-known d.applied k (suc k) rows (omega arith)) in
      rw newer (
        and_rest v (λ d'. apply_all-Ended rest (suc k) c d' more' (omega arith))
          (apply_migration script m d) (apply_migration-Went m rest d here new))
    where
      and_rest :
          m.version ≡ pos (suc k)
          → ((d' : Database T)
              → Numbered (suc k) d'.applied
              → At rest d'
              → Ended (apply_all script (pos c) rest d'))
          → (r : Result MigrateError (Unit {0}) × Database T) → Went m rest d.applied r
          → Ended (let (x, d') = r in Exec.continue x (λ _. apply_all script (pos c) rest) d')
      and_rest v later (ok _, d') (there, row) = later d' (rw row (k, (refl, v, rows))) there
      and_rest v later (err e, d') went = (m ∷ rest, went)

  -- where a database stands, if it does
  abbrev pub Stands : Database T → Type 0
  Stands d = (rest : List Migration) × At rest d

  call-Ended :
      (e : MigrateError) (f : Unit {0} → Exec (Database T) MigrateError (Unit {0})) (d : Database T)
      → Stands d
      → ((l : List Bool) → Ended (f tt (record d { faults = l })))
      → Ended ((driver_call e >>= f) d)
  unfolding driver_call ◌>>=◌
  call-Ended e f d here k = by_fault d.faults
    where
      by_fault : (l : List Bool) → Ended (let (r, d') = take_fault e d l in Exec.continue r f d')
      by_fault [] = k d.faults
      by_fault (true ∷ l) = here
      by_fault (false ∷ l) = k l

  pub contiguous_of_load :
      (r : Result MigrateError (List Migration)) → in_order r ≡ ok all → contiguous 0 all ≡ true
  contiguous_of_load (err e) h = absurd (cc h)
  contiguous_of_load (ok ms) h = by_check (sort_by (λ m n. greater n.version m.version) ms) h
    where
      by_check : (ns : List Migration) → checked_order ns ≡ ok all → contiguous 0 all ≡ true
      by_check ns h = elim (Bool-cases (contiguous 0 ns)) [
        | inl y ↦ let same : ns ≡ all = cc (h, y) in rw (← same) y
        | inr n ↦ absurd (cc (h, n))
      ]

  -- Of a database that some of the migrations made from the tables `start`, in their order, each
  -- once and with its row, `migrate` makes one that again some of them made; and if it returns no
  -- error, all of them.
  pub migrate-Ended :
      (es : List DirEntry) (d : Database T)
      → load_migrations es ≡ ok all
      → Stands d
      → Ended (migrate script es d)
  unfolding migrate load_migrations loaded gets ◌>>=◌
  migrate-Ended es d load (rest, here) =
      let c = contiguous_of_load (parse_entries es) load in
      let (k, (more, rows, skip)) = position script all start c here in
      call-Ended cannot_create _ d (rest, here)
        (λ l. rw load (
          call-Ended no_version _ (record d { faults = l }) (rest, here)
            (λ l'. rw (max_version-Numbered d.applied k rows) (
              rw (skip (record d { faults = l' }) k (omega arith)) (
                apply_all-Ended rest k k (record d { faults = l' }) more (omega arith) rows
                  here)))))
