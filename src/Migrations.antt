-- ===== src/Migrations.antt =====
-- internal/store/migrations.go. What a script of SQL does to the tables, or that it fails, is outside
-- of the program; so is the driver, of which each call may fail.
pub mod Versions
pub mod Progress
pub mod Success
use oh_my_lan.Prelude.{
  ℕ, suc, String, Bool, true, false, not, ◌||◌, Option, none, some, List, [], ◌∷◌, ◌==◌, ℤ, pos,
  greater, int_eq, exists, sort_by, if◌then◌else◌,
}
use oh_my_lan.Exec.{Result, ok, err, Exec, pure, raise, gets, modify, refuse_if, ◌>>=◌, ◌>>◌}
use oh_my_lan.Text.{cut, atoi}
use oh_my_lan.Text.Search.{has_suffix, trim_suffix}

pub record Migration : Type 0 where
  pub version : ℤ
  pub name : String
  pub sql : String

-- an entry of the directory; a file that cannot be read has no content
pub record DirEntry : Type 0 where
  pub name : String
  pub is_dir : Bool
  pub content : Option String

pub data MigrateError : Type 0 where
  bad_name bad_version cannot_read not_contiguous cannot_create no_version cannot_begin :
      MigrateError
  script_failed cannot_register cannot_commit : MigrateError

abbrev with_content : ℤ → String → Option String → Result MigrateError Migration
with_content v name none = err cannot_read
with_content v name (some sql) = ok (record { version = v; name = name; sql = sql })

abbrev with_version : Option ℤ → String → Option String → Result MigrateError Migration
with_version none name sql = err bad_version
with_version (some v) name sql = with_content v name sql

abbrev of_parts : String × Option String → Option String → Result MigrateError Migration
of_parts (number, none) sql = err bad_name
of_parts (number, some name) sql = with_version (atoi number) name sql

unfoldable pub parse_entry : DirEntry → Result MigrateError Migration
unfolding cut atoi trim_suffix
parse_entry e = of_parts (cut b'_' (trim_suffix ".sql" e.name)) e.content

abbrev and_entry :
    Result MigrateError Migration
    → Result MigrateError (List Migration)
    → Result MigrateError (List Migration)
and_entry (err e) rest = err e
and_entry (ok m) (err e) = err e
and_entry (ok m) (ok ms) = ok (m ∷ ms)

unfoldable pub parse_entries : List DirEntry → Result MigrateError (List Migration)
unfolding parse_entry has_suffix
parse_entries [] = ok []
parse_entries (e ∷ es) =
    let rest = parse_entries es in
    if e.is_dir || not (has_suffix ".sql" e.name) then rest else and_entry (parse_entry e) rest

-- whether the versions go on from a number, one by one
abbrev pub contiguous : ℕ → List Migration → Bool
contiguous i [] = true
contiguous i (m ∷ ms) =
    let rest = contiguous (suc i) ms in if int_eq m.version (pos (suc i)) then rest else false

abbrev checked_order : List Migration → Result MigrateError (List Migration)
checked_order ms = if contiguous 0 ms then ok ms else err not_contiguous

abbrev in_order : Result MigrateError (List Migration) → Result MigrateError (List Migration)
in_order (err e) = err e
in_order (ok ms) = checked_order (sort_by (λ m n. greater n.version m.version) ms)

-- `loadMigrations`; equal versions are not contiguous in any order.
unfoldable pub load_migrations : List DirEntry → Result MigrateError (List Migration)
unfolding parse_entries
load_migrations es = in_order (parse_entries es)

-- The tables that the scripts work on, and the rows of schema_migrations, newest first; the time of
-- a row is read by nothing.
pub record Database (T : Type 0) : Type 0 where
  pub tables : T
  pub applied : List (ℤ × String)
  pub faults : List Bool

-- `COALESCE(MAX(version),0)`
abbrev pub greatest : ℤ → List (ℤ × String) → ℤ
greatest v [] = v
greatest v ((w, name) ∷ rows) = let m = greatest v rows in if greater w m then w else m

abbrev pub max_version : List (ℤ × String) → ℤ
max_version [] = pos 0
max_version ((v, name) ∷ rows) = greatest v rows

module _ {T : Type 0} where
  abbrev pub take_fault :
      MigrateError → Database T → List Bool → Result MigrateError (Unit {0}) × Database T
  take_fault e d [] = (ok tt, d)
  take_fault e d (true ∷ rest) = (err e, record d { faults = rest })
  take_fault e d (false ∷ rest) = (ok tt, record d { faults = rest })

  unfoldable pub driver_call : MigrateError → Exec (Database T) MigrateError (Unit {0})
  driver_call e d = take_fault e d d.faults

  unfoldable pub or_failed : Option T → Exec (Database T) MigrateError T
  or_failed none d = (err script_failed, d)
  or_failed (some t) d = (ok t, d)

  -- the row of a migration and the commit, after its script has made `tables`
  unfoldable pub register_migration : Migration → T → Exec (Database T) MigrateError (Unit {0})
  unfolding driver_call
  register_migration m tables = do
    driver_call cannot_register
    known ← gets (λ d. exists (λ row. int_eq row.0 m.version) d.applied)
    refuse_if known cannot_register
    driver_call cannot_commit
    modify (λ d. record d { tables = tables; applied = (m.version, m.name) ∷ d.applied })

  -- One transaction: what it wrote is there once the commit has not failed.
  unfoldable pub apply_migration :
      (String → T → Option T) → Migration → Exec (Database T) MigrateError (Unit {0})
  unfolding driver_call register_migration
  apply_migration script m = do
    driver_call cannot_begin
    driver_call script_failed
    result ← gets (λ d. script m.sql d.tables)
    tables ← or_failed result
    register_migration m tables

  abbrev pub apply_newer :
      (String → T → Option T) → ℤ → Migration → Exec (Database T) MigrateError (Unit {0})
  apply_newer script current m =
      if greater m.version current then apply_migration script m else pure tt

  unfoldable pub apply_all :
      (String → T → Option T) → ℤ → List Migration → Exec (Database T) MigrateError (Unit {0})
  unfolding apply_migration
  apply_all script current [] = pure tt
  apply_all script current (m ∷ ms) = do apply_newer script current m; apply_all script current ms

  unfoldable pub loaded :
      Result MigrateError (List Migration) → Exec (Database T) MigrateError (List Migration)
  loaded r d = (r, d)

  unfoldable pub migrate :
      (String → T → Option T) → List DirEntry → Exec (Database T) MigrateError (Unit {0})
  unfolding load_migrations apply_all
  migrate script es = do
    driver_call cannot_create
    migrations ← loaded (load_migrations es)
    driver_call no_version
    current ← gets (λ d. max_version d.applied)
    apply_all script current migrations
