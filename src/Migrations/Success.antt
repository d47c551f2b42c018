-- ===== src/Migrations/Success.antt =====
-- Migrations with a driver that does not fail and scripts that run.
use oh_my_lan.Prelude.{
  ℕ, suc, ◌≤◌, ◌≡◌, refl, String, true, false, Option, some, List, [], ◌∷◌, arith, pos, greater,
  int_eq, exists,
}
use oh_my_lan.Exec.{ok, pure, gets, modify, refuse_if, ◌>>=◌}
use oh_my_lan.Migrations.{
  Migration, DirEntry, contiguous, load_migrations, parse_entries, Database, driver_call, or_failed,
  register_migration, apply_migration, apply_all, loaded, migrate,
}
use oh_my_lan.Migrations.Progress.{Stands, contiguous_of_load}
use oh_my_lan.Migrations.Versions.{
  Numbered, not-known, max_version-Numbered, contiguous-head, position,
}

module _ {T : Type 0} (script : String → T → Option T) where
  apply_migration-ok :
      (m : Migration) (d : Database T) (u : T)
      → d.faults ≡ []
      → script m.sql d.tables ≡ some u
      → exists (λ row. int_eq row.0 m.version) d.applied ≡ false
      → apply_migration script m d
        ≡ (ok tt, record d { tables = u; applied = (m.version, m.name) ∷ d.applied })
  unfolding apply_migration register_migration driver_call or_failed gets refuse_if modify ◌>>=◌
  apply_migration-ok m d u none_fails run new = rw (none_fails, run, new) refl

  apply_all-ok :
      (rest : List Migration) (k c : ℕ) (d : Database T)
      → ((sql : String) (t : T) → (u : T) × (script sql t ≡ some u))
      → d.faults ≡ []
      → contiguous k rest ≡ true
      → c ≤ k
      → Numbered k d.applied
      → (apply_all script (pos c) rest d).0 ≡ ok tt
  unfolding apply_all pure ◌>>=◌
  apply_all-ok [] k c d runs none_fails more l rows = refl
  apply_all-ok (m ∷ rest) k c d runs none_fails more l rows =
      let (v, more') = contiguous-head k m rest more in
      let newer : greater m.version (pos c) ≡ true = rw v (ground arith) in
      let new : exists (λ row. int_eq row.0 m.version) d.applied ≡ false =
        rw v (not-known d.applied k (suc k) rows (omega arith)) in
      let (u, run) = runs m.sql d.tables in
      rw (newer, apply_migration-ok m d u none_fails run new)
        (apply_all-ok rest (suc k) c
          (record d { tables = u; applied = (m.version, m.name) ∷ d.applied }) runs none_fails more'
          (omega arith) (k, (refl, v, rows)))

  -- If no call of the driver fails and every script runs, `migrate` returns no error on a database
  -- that some of the migrations made.
  pub migrate-ok :
      (all : List Migration) (start : T) (es : List DirEntry) (d : Database T)
      → ((sql : String) (t : T) → (u : T) × (script sql t ≡ some u))
      → d.faults ≡ []
      → load_migrations es ≡ ok all
      → Stands script all start d
      → (migrate script es d).0 ≡ ok tt
  unfolding migrate load_migrations loaded driver_call gets ◌>>=◌
  migrate-ok all start es d runs none_fails load (rest, here) =
      let c = contiguous_of_load script all start (parse_entries es) load in
      let (k, (more, rows, skip)) = position script all start c here in
      rw
        (
          none_fails,
          load,
          max_version-Numbered d.applied k rows,
          skip (record d { faults = [] }) k (omega arith),
        )
        (apply_all-ok rest k k (record d { faults = [] }) runs refl more (omega arith) rows)
