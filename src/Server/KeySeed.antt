-- ===== src/Server/KeySeed.antt =====
-- internal/server/keyseed.go: the seed of chisel's private key.
use Prim.Native.String.{◌++◌}
use oh_my_lan.Prelude.{
  ◌≡◌, refl, ap, String, true, false, ◌==◌, Option, none, some, inl, inr, Bool-cases, if◌then◌else◌,
}
use oh_my_lan.Exec.{Result, ok, err, Exec, pure, raise, ◌>>=◌, ◌>>◌}
use oh_my_lan.Files.{FileSystem, IsLawful, ReadResult, missing, unreadable, content, fails}

pub data SeedError : Type 0 where
  empty_seed cannot_read no_random no_directory cannot_write : SeedError

abbrev pub seed_path : String → String
seed_path data_dir = data_dir ++ "/chisel.seed"

module _ (F : FileSystem) where
  -- a new seed: the encoded text of random bytes, if there are any
  unfoldable pub new_seed : String → Option String → Exec F.State SeedError String
  new_seed data_dir none = raise no_random
  new_seed data_dir (some seed) = do
    (λ s. fails no_directory (F.make_dir data_dir s))
    (λ s. fails cannot_write (F.write (seed_path data_dir) seed s))
    pure seed

  unfoldable pub seed_of : String → Option String → ReadResult → Exec F.State SeedError String
  unfolding new_seed
  seed_of data_dir random (content text) = if text == "" then raise empty_seed else pure text
  seed_of data_dir random missing = new_seed data_dir random
  seed_of data_dir random unreadable = raise cannot_read

  -- `loadOrCreateKeySeed`
  unfoldable pub load_or_create_key_seed :
      String → String → Option String → Exec F.State SeedError String
  unfolding seed_of
  load_or_create_key_seed data_dir explicit random s =
      if explicit == ""
      then seed_of data_dir random (F.read (seed_path data_dir) s) s
      else (ok explicit, s)

module _ (F : FileSystem) (law : IsLawful F) where
  -- under the path, the text that was returned
  abbrev KeepsSeed : String → Result SeedError String × F.State → Type 0
  KeepsSeed data_dir (ok seed, t) =
      (F.read (seed_path data_dir) t ≡ content seed) × (seed == "" ≡ false)
  KeepsSeed data_dir (err e, t) = Unit

  new_seed-KeepsSeed :
      (data_dir seed : String) (s : F.State)
      → seed == "" ≡ false
      → KeepsSeed data_dir (new_seed F data_dir (some seed) s)
  unfolding new_seed ◌>>=◌ pure
  new_seed-KeepsSeed data_dir seed s full = elim (Bool-cases (F.make_dir data_dir s).0) [
    | inl bad ↦ rw bad tt
    | inr made ↦ elim (Bool-cases (F.write (seed_path data_dir) seed (F.make_dir data_dir s).1).0) [
      | inl bad ↦ rw (made, bad) tt
      | inr written ↦ rw (made, written) (law.read-write (seed_path data_dir) seed _ written, full)
    ]
  ]

  seed_of-KeepsSeed :
      (data_dir seed : String) (s : F.State) (r : ReadResult)
      → F.read (seed_path data_dir) s ≡ r
      → seed == "" ≡ false
      → KeepsSeed data_dir (seed_of F data_dir (some seed) r s)
  unfolding seed_of raise pure
  seed_of-KeepsSeed data_dir seed s missing e full = new_seed-KeepsSeed data_dir seed s full
  seed_of-KeepsSeed data_dir seed s unreadable e full = tt
  seed_of-KeepsSeed data_dir seed s (content text) e full = elim (Bool-cases (text == "")) [
    | inl empty ↦ rw empty tt
    | inr there ↦ rw there (e, there)
  ]

  read_again :
      (data_dir explicit seed : String) (random : Option String)
      (r : Result SeedError String × F.State)
      → explicit == "" ≡ true
      → r.0 ≡ ok seed
      → KeepsSeed data_dir r
      → load_or_create_key_seed F data_dir explicit random r.1 ≡ (ok seed, r.1)
  unfolding load_or_create_key_seed seed_of pure
  read_again data_dir explicit seed random (ok x, t) none_given e (there, full) =
      rw (none_given, there, full) (ap (λ y. (y, t)) e)
  read_again data_dir explicit seed random (err x, t) none_given e k = absurd (cc e)

  -- A server that is started again has the seed of the start before, whatever random bytes it would
  -- have drawn, and changes no file; the bytes of the first start have a text that is not empty.
  pub load_or_create_key_seed-again :
      (data_dir explicit fresh seed : String) (random : Option String) (s : F.State)
      → fresh == "" ≡ false
      → (load_or_create_key_seed F data_dir explicit (some fresh) s).0 ≡ ok seed
      → load_or_create_key_seed F data_dir explicit random
          (load_or_create_key_seed F data_dir explicit (some fresh) s).1
        ≡ (ok seed, (load_or_create_key_seed F data_dir explicit (some fresh) s).1)
  unfolding load_or_create_key_seed
  load_or_create_key_seed-again data_dir explicit fresh seed random s full first =
      elim (Bool-cases (explicit == "")) [
        | inl e ↦
            read_again data_dir explicit seed random
              (load_or_create_key_seed F data_dir explicit (some fresh) s) e first
              (rw e (seed_of-KeepsSeed data_dir fresh s _ refl full))
        | inr given ↦ rw given (ap (λ x. (x, s)) (cc (first, given)))
      ]
