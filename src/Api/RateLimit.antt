-- ===== src/Api/RateLimit.antt =====
-- `LoginRateLimiter` of internal/server/api/api.go: the failures of logins by address.
use mathlib.Core.List.{append-nil, append_assoc}
use oh_my_lan.Prelude.{
  ℕ, ◌+◌, ◌≤◌, ◌≡◌, refl, sym, ap, ◌∙◌, All, length-append, String, Bool, true, false, List, [],
  ◌∷◌, ◌++◌, arith, ltb, ◌==◌, eq_iff, select, length, if◌then◌else◌,
}
use oh_my_lan.Time.{minute}

-- `failures map[string][]time.Time`
abbrev pub Failures : Type 0
Failures = List (String × List ℕ)

abbrev pub max_fail : ℕ
max_fail = 5

abbrev pub window : ℕ
window = minute

-- a missing key reads as the nil slice
unfoldable pub failures_of : String → Failures → List ℕ
failures_of ip [] = []
failures_of ip ((k, ts) ∷ m) = if k == ip then ts else failures_of ip m

unfoldable pub forget : String → Failures → Failures
forget ip [] = []
forget ip ((k, ts) ∷ m) = let rest = forget ip m in if k == ip then rest else (k, ts) ∷ rest

unfoldable pub store_failures : String → List ℕ → Failures → Failures
store_failures ip ts m = (ip, ts) ∷ forget ip m

-- `t.After(now.Add(-window))`
abbrev pub recent : ℕ → ℕ → Bool
recent now t = ltb now (t + window)

abbrev pub keep_or_drop : String → Failures → List ℕ → Failures
keep_or_drop ip m [] = forget ip m
keep_or_drop ip m (t ∷ ts) = store_failures ip (t ∷ ts) m

-- `gcLocked`
unfoldable pub collect : String → ℕ → Failures → Failures
collect ip now m = keep_or_drop ip m (select (recent now) (failures_of ip m))

-- `Allow`, which collects before it counts
unfoldable pub allow : String → ℕ → Failures → Bool × Failures
unfolding collect
allow ip now m = let m' = collect ip now m in (ltb (length (failures_of ip m')) max_fail, m')

unfoldable pub record_failure : String → ℕ → Failures → Failures
record_failure ip now m = store_failures ip (failures_of ip m ++ now ∷ []) m

failures_of-forget :
    (ip j : String) (m : Failures)
    → failures_of j (forget ip m) ≡ (if ip == j then [] else failures_of j m)
unfolding failures_of forget
failures_of-forget ip j [] = ground arith
failures_of-forget ip j ((k, ts) ∷ m) =
    ground (arith, failures_of-forget ip j m, eq_iff k ip, eq_iff k j, eq_iff ip j)

pub failures_of-store :
    (ip j : String) (ts : List ℕ) (m : Failures)
    → failures_of j (store_failures ip ts m) ≡ (if ip == j then ts else failures_of j m)
unfolding failures_of store_failures
failures_of-store ip j ts m = ground (arith, failures_of-forget ip j m, eq_iff ip j)

pub failures_of-collect :
    (ip j : String) (now : ℕ) (m : Failures)
    → failures_of j (collect ip now m)
      ≡ (if ip == j then select (recent now) (failures_of ip m) else failures_of j m)
unfolding collect
failures_of-collect ip j now m = go (select (recent now) (failures_of ip m))
  where
    go :
        (l : List ℕ)
        → failures_of j (keep_or_drop ip m l) ≡ (if ip == j then l else failures_of j m)
    go [] = failures_of-forget ip j m
    go (t ∷ ts) = failures_of-store ip j (t ∷ ts) m

-- `Allow` lets an address through exactly while fewer than five of its failures are less than a
-- minute old; what it drops are older failures of that address, and the failures of every other
-- address stay as they are.
pub allow_lem :
    (ip j : String) (now : ℕ) (m : Failures)
    → ((allow ip now m).0 ≡ ltb (length (select (recent now) (failures_of ip m))) max_fail)
      × (failures_of j (allow ip now m).1
          ≡ (if ip == j then select (recent now) (failures_of ip m) else failures_of j m))
unfolding allow
allow_lem ip j now m =
    (ground (arith, failures_of-collect ip ip now m, eq_iff ip ip), failures_of-collect ip j now m)

-- the failures of an address one after the other
pub fail_times : String → List ℕ → Failures → Failures
fail_times ip [] m = m
fail_times ip (t ∷ ts) m = fail_times ip ts (record_failure ip t m)

failures_of-fail_times :
    (ip : String) (ts : List ℕ) (m : Failures)
    → failures_of ip (fail_times ip ts m) ≡ failures_of ip m ++ ts
unfolding fail_times record_failure
failures_of-fail_times ip [] m = sym (append-nil (failures_of ip m))
failures_of-fail_times ip (t ∷ ts) m =
    failures_of-fail_times ip ts (record_failure ip t m)
    ∙ ap (λ l. l ++ ts) (failures_of-store ip ip (failures_of ip m ++ t ∷ []) m ∙ same)
    ∙ append_assoc (failures_of ip m) (t ∷ []) ts
  where
    same :
        (if ip == ip then failures_of ip m ++ t ∷ [] else failures_of ip m)
        ≡ failures_of ip m ++ t ∷ []
    same = ground (arith, eq_iff ip ip)

length-select_all :
    (p : ℕ → Bool) (xs : List ℕ) → All (λ x. p x ≡ true) xs → length (select p xs) ≡ length xs
length-select_all p [] h = refl
length-select_all p (x ∷ xs) h = ground (arith, length-select_all p xs h.1)

select-append : (p : ℕ → Bool) (xs ys : List ℕ) → select p (xs ++ ys) ≡ select p xs ++ select p ys
select-append p [] ys = refl
select-append p (x ∷ xs) ys = ground (arith, select-append p xs ys)

-- After five failures or more of an address within the last minute, whatever came before, `Allow`
-- refuses that address.
pub allow-fail_times :
    (ip : String) (ts : List ℕ) (now : ℕ) (m : Failures)
    → 5 ≤ length ts
    → All (λ t. recent now t ≡ true) ts
    → (allow ip now (fail_times ip ts m)).0 ≡ false
allow-fail_times ip ts now m five late =
    (allow_lem ip ip now (fail_times ip ts m)).0
    ∙ ap (λ l. ltb (length (select (recent now) l)) max_fail) (failures_of-fail_times ip ts m)
    ∙ ap (λ l. ltb (length l) max_fail) (select-append (recent now) (failures_of ip m) ts)
    ∙ too_many
  where
    old : List ℕ
    old = select (recent now) (failures_of ip m)

    too_many : ltb (length (old ++ select (recent now) ts)) max_fail ≡ false
    too_many =
        ground (
          arith,
          length-append old (select (recent now) ts),
          length-select_all (recent now) ts late,
        )
