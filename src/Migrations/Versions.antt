-- ===== src/Migrations/Versions.antt =====
-- Which versions a database has, after some of the migrations.
use oh_my_lan.Prelude.{
  ℕ, suc, ◌≤◌, ◌<◌, ◌≡◌, refl, sym, ◌∙◌, ap, String, true, false, Option, some, List, [], ◌∷◌,
  arith, ℤ, pos, negsuc, int_eq, ltb, exists, inl, inr, Bool-cases, if◌then◌else◌,
}
use oh_my_lan.Exec.{pure, ◌>>=◌}
use oh_my_lan.Migrations.{Migration, contiguous, Database, greatest, max_version, apply_all}

-- The scripts that ran, in their order, from the tables `start` on, each with its row: those of
-- `all` up to where `rest` begins.
pub data Applied {T : Type 0} (script : String → T → Option T) (all : List Migration) (start : T)
    : List Migration → T → List (ℤ × String) → Type 0 where
  fresh : Applied script all start all start []
  next :
      {m : Migration} {rest : List Migration} {t u : T} {rows : List (ℤ × String)}
      → Applied script all start (m ∷ rest) t rows
      → script m.sql t ≡ some u
      → Applied script all start rest u ((m.version, m.name) ∷ rows)

-- the rows of the versions k, k - 1, ..., 1
abbrev pub Numbered : ℕ → List (ℤ × String) → Type 0
Numbered k [] = k ≡ 0
Numbered k ((v, name) ∷ rows) = (j : ℕ) × ((k ≡ suc j) × (v ≡ pos k) × Numbered j rows)

greatest-Numbered :
    (rows : List (ℤ × String)) (j i : ℕ) → Numbered j rows → j ≤ i → greatest (pos i) rows ≡ pos i
greatest-Numbered [] j i h l = refl
greatest-Numbered ((v, name) ∷ rows) j i (j', (e, f, h)) l =
    rw (f, greatest-Numbered rows j' i h (omega (arith, e))) (ground arith)

pub max_version-Numbered :
    (rows : List (ℤ × String)) (k : ℕ) → Numbered k rows → max_version rows ≡ pos k
max_version-Numbered [] k h = ap pos (sym h)
max_version-Numbered ((v, name) ∷ rows) k (j, (e, f, h)) =
    rw f (greatest-Numbered rows j k h (omega (arith, e)))

pub not-known :
    (rows : List (ℤ × String)) (k i : ℕ)
    → Numbered k rows
    → k < i
    → exists (λ row. int_eq row.0 (pos i)) rows ≡ false
not-known [] k i h l = refl
not-known ((v, name) ∷ rows) k i (j, (e, f, h)) l =
    rw (f, not-known rows j i h (omega (arith, e))) (ground arith)

pub contiguous-head :
    (k : ℕ) (m : Migration) (ms : List Migration)
    → contiguous k (m ∷ ms) ≡ true
    → (m.version ≡ pos (suc k)) × (contiguous (suc k) ms ≡ true)
contiguous-head k m ms h = by_version m.version (int_cases m.version) h
  where
    int_cases : (v : ℤ) → int_eq v (pos (suc k)) ≡ true → v ≡ pos (suc k)
    int_cases (pos n) e = ap pos (ground arith)
    int_cases (negsuc n) e = absurd (cc e)

    by_version :
        (v : ℤ)
        → (int_eq v (pos (suc k)) ≡ true → v ≡ pos (suc k))
        → (if int_eq v (pos (suc k)) then contiguous (suc k) ms else false) ≡ true
        → (v ≡ pos (suc k)) × (contiguous (suc k) ms ≡ true)
    by_version v same e = elim (Bool-cases (int_eq v (pos (suc k)))) [
      | inl y ↦ (same y, ground (arith, e, y))
      | inr n ↦ absurd (ground (arith, e, n))
    ]

module _ {T : Type 0} (script : String → T → Option T) (all : List Migration) (start : T) where
  -- what `Applied` says of the versions, and of what a new start skips
  abbrev pub Position : List Migration → List (ℤ × String) → Type 0
  Position rest rows =
      (k : ℕ) × ((contiguous k rest ≡ true)
        × Numbered k rows
        × ((d : Database T) (j : ℕ)
            → k ≤ j
            → apply_all script (pos j) all d ≡ apply_all script (pos j) rest d))

  skip_head :
      (k : ℕ) (m : Migration) (rest : List Migration)
      → m.version ≡ pos (suc k)
      → (d : Database T) (j : ℕ) → suc k ≤ j
      → apply_all script (pos j) (m ∷ rest) d ≡ apply_all script (pos j) rest d
  unfolding apply_all pure ◌>>=◌
  skip_head k m rest v d j l = let old : ltb j (suc k) ≡ false = ground arith in rw (v, old) refl

  pub position :
      {rest : List Migration} {t : T} {rows : List (ℤ × String)}
      → contiguous 0 all ≡ true
      → Applied script all start rest t rows
      → Position rest rows
  position c fresh = (0, (c, refl, λ d j l. refl))
  position c (next {m = m} {rest = rest} a e) =
      let (k, (more, rows, skip)) = position c a in
      let (v, more') = contiguous-head k m rest more in
      (
        suc k,
        (more', (k, (refl, v, rows)), λ d j l. skip d j (omega arith) ∙ skip_head k m rest v d j l),
      )
