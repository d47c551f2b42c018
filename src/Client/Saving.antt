-- ===== src/Client/Saving.antt =====
-- Saving the state of a device (`SaveState`), and loading it again.
use Prim.Native.String.{◌++◌, len}
use text.Mathlib.TextPositions.{len-append}
use oh_my_lan.Prelude.{
  ◌≡◌, refl, ◌∙◌, inl, inr, ap, String, false, ◌||◌, ◌==◌, eq_iff, Option, some, arith, Bool-cases,
}
use oh_my_lan.Exec.{Result, ok, err, ◌>>=◌}
use oh_my_lan.Files.{FileSystem, IsLawful, content, fails}
use oh_my_lan.Client.State.{
  DeviceState, StateError, load_text, save_state, load_state, cannot_rename,
}

-- a text with something behind it is another text
longer : (p : String) → p == p ++ ".tmp" ≡ false
longer p = elim (Bool-cases (p == p ++ ".tmp")) [
  | inl e ↦
      let same : len p ≡ len (p ++ ".tmp") = ap len ((eq_iff p (p ++ ".tmp")).0 e) in
      absurd (omega (arith, same, len-append p ".tmp"))
  | inr e ↦ e
]

module _ (F : FileSystem) (law : IsLawful F) where
  -- what the program may find under the path
  abbrev pub Saved : String → String → F.State → Result StateError (Unit {0}) × F.State → Type 0
  Saved path text s (ok _, t) = F.read path t ≡ content text
  Saved path text s (err _, t) = F.read path t ≡ F.read path s

  after_rename :
      (path text : String) (s t : F.State)
      → F.read (path ++ ".tmp") t ≡ content text
      → F.read path t ≡ F.read path s
      → Saved path text s (fails cannot_rename (F.rename (path ++ ".tmp") path t))
  after_rename path text s t new old = elim (Bool-cases (F.rename (path ++ ".tmp") path t).0) [
    | inl bad ↦ rw bad (law.read-rename_failed _ path path t bad ∙ old)
    | inr good ↦ rw good (law.read-rename _ path t good ∙ new)
  ]

  -- `SaveState` leaves under the path the new text if it succeeds, and what was there if it fails:
  -- a reader never finds a part of a text.
  pub save_state-Saved :
      (dir path text : String) (s : F.State) → Saved path text s (save_state F dir path text s)
  unfolding save_state ◌>>=◌
  save_state-Saved dir path text s = elim (Bool-cases (F.make_dir dir s).0) [
    | inl bad ↦ rw bad (law.read-make_dir dir path s)
    | inr made ↦ elim (Bool-cases (F.write (path ++ ".tmp") text (F.make_dir dir s).1).0) [
      | inl bad ↦
          rw (made, bad)
            (law.read-write_other _ path text _ (longer path) ∙ law.read-make_dir dir path s)
      | inr written ↦
          rw (made, written)
            (after_rename path text s _ (law.read-write _ text _ written)
              (law.read-write_other _ path text _ (longer path) ∙ law.read-make_dir dir path s))
    ]
  ]

  -- What a successful `SaveState` wrote, `LoadState` reads back, if JSON reads back what it writes
  -- and the state has an id and a secret.
  pub load_state-save_state :
      (decode : String → Option DeviceState) (encode : DeviceState → String) (dir path : String)
      (d : DeviceState) (s : F.State)
      → decode (encode d) ≡ some d
      → d.device_id == "" || d.tunnel_secret == "" ≡ false
      → (save_state F dir path (encode d) s).0 ≡ ok tt
      → load_state F decode path (save_state F dir path (encode d) s).1 ≡ ok d
  unfolding load_state load_text
  load_state-save_state decode encode dir path d s json full saved =
      rw
        (
          read_back (save_state F dir path (encode d) s) saved
              (save_state-Saved dir path (encode d) s),
          json,
          full,
        )
        refl
    where
      read_back :
          (r : Result StateError (Unit {0}) × F.State)
          → r.0 ≡ ok tt
          → Saved path (encode d) s r
          → F.read path r.1 ≡ content (encode d)
      read_back (ok tt, t) e h = h
      read_back (err x, t) e h = absurd (cc e)
