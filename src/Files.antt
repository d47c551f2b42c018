-- ===== src/Files.antt =====
-- The file system, which is outside of the program: what it does to a state of its own, and what the
-- program relies on. An operation returns whether it failed.
use oh_my_lan.Prelude.{◌≡◌, String, Bool, true, false, ◌==◌}
use oh_my_lan.Exec.{Result, ok, err}

pub data ReadResult : Type 0 where
  missing unreadable : ReadResult
  content : String → ReadResult

pub record FileSystem : Type 1 where
  pub State : Type 0
  pub read : String → State → ReadResult
  pub make_dir : String → State → Bool × State
  pub write : String → String → State → Bool × State
  pub rename : String → String → State → Bool × State

-- `if err := ...; err != nil { return err }`
abbrev pub fails : {E S : Type 0} → E → Bool × S → Result E (Unit {0}) × S
fails e (true, s) = (err e, s)
fails e (false, s) = (ok tt, s)

-- A write that fails may leave anything in its own file; a rename is done or not done.
pub record IsLawful (F : FileSystem) : Type 0 where
  pub read-make_dir : (d p : String) (s : F.State) → F.read p (F.make_dir d s).1 ≡ F.read p s
  pub read-write :
      (p text : String) (s : F.State)
      → (F.write p text s).0 ≡ false
      → F.read p (F.write p text s).1 ≡ content text
  pub read-write_other :
      (p q text : String) (s : F.State)
      → q == p ≡ false
      → F.read q (F.write p text s).1 ≡ F.read q s
  pub read-rename :
      (p q : String) (s : F.State)
      → (F.rename p q s).0 ≡ false
      → F.read q (F.rename p q s).1 ≡ F.read p s
  pub read-rename_failed :
      (p q r : String) (s : F.State)
      → (F.rename p q s).0 ≡ true
      → F.read r (F.rename p q s).1 ≡ F.read r s
