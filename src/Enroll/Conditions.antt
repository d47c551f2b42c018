-- ===== src/Enroll/Conditions.antt =====
-- What a token must be for an enrollment to succeed.
use oh_my_lan.Prelude.{
  ℕ, ◌≡◌, refl, ◌∙◌, String, Bool, true, false, not, ◌&&◌, List, [], ◌∷◌, ltb, first, exists, some,
  arith, inl, inr, Bool-cases,
}
use oh_my_lan.Exec.{Result, ok, err, on_error}
use oh_my_lan.Exec.Establishes.{recovered}
use oh_my_lan.Exec.Keeps.{Keeps-refuse_if}
use oh_my_lan.Exec.Triple.{
  Triple, Triple-bind, Triple-keeps, Triple-gets, Triple-given, Triple-refuse_if,
}
use oh_my_lan.Store.{Store, EnrollmentToken, Error}
use oh_my_lan.Store.Tokens.{get_enrollment_token_by_hash, hash_is}
use oh_my_lan.Store.Reads.{lookup-ok}
use oh_my_lan.Server.{Server, on_store, after_store}
use oh_my_lan.Enroll.{is_used, lookup_error, enroll_device}

-- unused, and not yet at its end
abbrev pub is_open : ℕ → EnrollmentToken → Bool
is_open now t = not (is_used t.used_at) && ltb now t.expires_at

abbrev pub Before : String → String → ℕ → List EnrollmentToken → Server → Type 0
Before raw hash now tokens w = (w.env.hash raw ≡ hash) × (w.now ≡ now) × (w.store.tokens ≡ tokens)

first-exists_both :
    {A : Type 0} (p q : A → Bool) (xs : List A) (x : A)
    → first p xs ≡ some x
    → q x ≡ true
    → exists (λ y. p y && q y) xs ≡ true
first-exists_both p q [] x e h = absurd (cc e)
first-exists_both p q (y ∷ ys) x e h = elim (Bool-cases (p y)) [
  | inl passes ↦
      let same : y ≡ x = cc (e, passes) in
      let there : q y ≡ true = rw same h in rw (passes, there) refl
  | inr fails ↦ ground (arith, first-exists_both p q ys x (ground (arith, e, fails)) h)
]

-- What is read of the store leaves the clock as it is.
after_store-read :
    (w : Server) (r : Result Error EnrollmentToken × Store) (t : EnrollmentToken)
    → (after_store w r).0 ≡ ok t
    → (r.0 ≡ ok t) × ((after_store w r).1.now ≡ w.now)
after_store-read w (ok u, s) t e = (cc e, refl)
after_store-read w (err x, s) t e = absurd (cc e)

read_token :
    (raw hash : String) (now : ℕ) (tokens : List EnrollmentToken)
    → Triple
        (Before raw hash now tokens)
        (on_error lookup_error (on_store (get_enrollment_token_by_hash hash)))
        (λ t w. (first (hash_is hash) tokens ≡ some t) × (w.now ≡ now))
unfolding on_error on_store get_enrollment_token_by_hash
read_token raw hash now tokens = record {
  run = λ w (h : Before raw hash now tokens w) t e.
      let (read, clock) =
        after_store-read w (get_enrollment_token_by_hash hash w.store) t
          (recovered lookup_error _ t e) in
      let (k, row) = lookup-ok (λ (s : Store). first (hash_is hash) s.tokens) w.store t read in
      (rw (← h.2) row, clock ∙ h.1);
}

read_given :
    (raw hash hash' : String) (now : ℕ) (tokens : List EnrollmentToken)
    → Triple
        (λ w. (hash' ≡ hash) × Before raw hash now tokens w)
        (on_error lookup_error (on_store (get_enrollment_token_by_hash hash')))
        (λ t w. (first (hash_is hash) tokens ≡ some t) × (w.now ≡ now))
read_given raw hash hash' now tokens = record { run = λ w h t e. (by_hash h.0).run w h.1 t e }
  where
    by_hash :
        hash' ≡ hash
        → Triple
            (Before raw hash now tokens)
            (on_error lookup_error (on_store (get_enrollment_token_by_hash hash')))
            (λ t w. (first (hash_is hash) tokens ≡ some t) × (w.now ≡ now))
    by_hash same = rw same (read_token raw hash now tokens)

open_of :
    (t : EnrollmentToken) (now now' : ℕ)
    → is_used t.used_at ≡ false
    → now' ≡ now
    → not (ltb now' t.expires_at) ≡ false
    → is_open now t ≡ true
open_of t now now' unused same early =
    let later : ltb now' t.expires_at ≡ true = ground (arith, early) in
    rw (unused, ← same, later) refl

-- An enrollment only succeeds if the tables had a token of the text's hash that was unused and had
-- not ended.
pub enroll_device-is_open :
    (raw name hash : String) (now : ℕ) (tokens : List EnrollmentToken)
    → Triple
        (Before raw hash now tokens)
        (enroll_device raw name)
        (λ _ _. exists (λ t. hash_is hash t && is_open now t) tokens ≡ true)
unfolding enroll_device
enroll_device-is_open raw name hash now tokens =
    let found = λ (t : EnrollmentToken). first (hash_is hash) tokens ≡ some t in
    Triple-bind (λ _. Before raw hash now tokens) _ _ (Triple-keeps _ (Keeps-refuse_if _ _))
      λ _.
        Triple-bind (λ _. Before raw hash now tokens) _ _ (Triple-keeps _ (Keeps-refuse_if _ _))
          λ _.
            Triple-bind (λ hash' w. (hash' ≡ hash) × Before raw hash now tokens w) _ _
              (Triple-gets _ (λ w h. (h.0, h)))
              λ hash'.
                Triple-bind (λ t w. found t × (w.now ≡ now)) _ _
                  (read_given raw hash hash' now tokens)
                  λ t. Triple-bind _ _ _ (Triple-refuse_if (is_used t.used_at) _) λ _.
                    Triple-bind (λ now' _. (is_used t.used_at ≡ false) × found t × (now' ≡ now)) _ _
                      (Triple-gets _ (λ w h. (h.0, h.1.0, h.1.1)))
                      λ now'.
                        Triple-bind _ _ _ (Triple-refuse_if (not (ltb now' t.expires_at)) _) λ _.
                          Triple-given _ λ h. record {
                            run = λ w u d e.
                                first-exists_both (hash_is hash) (is_open now) tokens t h.1.1
                                  (open_of t now now' h.1.0 h.1.2 h.0);
                          }
