-- ===== src/Enroll/Success.antt =====
-- What a successful enrollment leaves in the tables.
use oh_my_lan.Prelude.{
  ℕ, ◌≡◌, refl, String, Bool, true, false, ◌&&◌, ◌==◌, eq_refl, List, [], ◌∷◌, first, exists,
  update, some, arith, inl, inr, Bool-cases, Option-cases,
}
use oh_my_lan.Exec.{Result, ok, err, gets, pure, modify, on_error, ◌>>=◌, ◌>>◌}
use oh_my_lan.Exec.Keeps.{Keeps, Keeps-refuse_if}
use oh_my_lan.Exec.Triple.{
  Triple, Triple-bind, Triple-keeps, Triple-pure, Triple-on_error, Triple-any, Triple-given,
  Triple-gets,
}
use oh_my_lan.Store.{Store, Device, EnrollmentToken, Error, take_fault, statement, found}
use oh_my_lan.Store.Devices.{insert_device, device_clash}
use oh_my_lan.Store.Tokens.{
  consume_enrollment_token, consume_body, roll_back, get_enrollment_token_by_hash, hash_is,
  token_is, mark_used, refuse_used,
}
use oh_my_lan.Server.{Server, on_store, after_store, random_text}
use oh_my_lan.Enroll.{EnrolledDevice, other, consume_error, is_used, enroll_device, new_device}

-- a row of the hash and the id
abbrev HasToken : String → String → Store → Type 0
HasToken hash id s = exists (λ u. token_is id u && hash_is hash u) s.tokens ≡ true

-- a row with the name and the credentials
abbrev same_device : Device → Device → Bool
same_device d x = x.id == d.id && x.name == d.name && x.tunnel_secret == d.tunnel_secret

abbrev pub HasRow : Device → Store → Type 0
HasRow d s = exists (same_device d) s.devices ≡ true

abbrev pub HasUsed : String → Store → Type 0
HasUsed hash s = exists (λ u. hash_is hash u && is_used u.used_at) s.tokens ≡ true

module _ (P : Store → Type 0) where
  take_fault-Keeps :
      ((s : Store) (l : List Bool) → P s → P (record s { faults = l }))
      → (s : Store) (l : List Bool) → P s
      → P (take_fault s l).1
  take_fault-Keeps k s [] h = h
  take_fault-Keeps k s (true ∷ l) h = k s l h
  take_fault-Keeps k s (false ∷ l) h = k s l h

  -- what does not look at the schedule of failures
  statement-Keeps :
      ((s : Store) (l : List Bool) → P s → P (record s { faults = l })) → Keeps P statement
  unfolding statement
  statement-Keeps k = record { run = λ s. take_fault-Keeps k s s.faults }

first-HasToken :
    (hash : String) (ts : List EnrollmentToken) (t : EnrollmentToken)
    → first (hash_is hash) ts ≡ some t
    → exists (λ u. token_is t.id u && hash_is hash u) ts ≡ true
first-HasToken hash [] t e = absurd (cc e)
first-HasToken hash (u ∷ ts) t e = elim (Bool-cases (hash_is hash u)) [
  | inl y ↦ let same : u ≡ t = cc (e, y) in rw (← same) (rw (eq_refl u.id, y) refl)
  | inr n ↦ ground (arith, first-HasToken hash ts t (ground (arith, e, n)))
]

found-HasToken :
    (hash : String) (s : Store) (t : EnrollmentToken)
    → (found (first (hash_is hash) s.tokens) s).0 ≡ ok t
    → HasToken hash t.id (found (first (hash_is hash) s.tokens) s).1
unfolding found
found-HasToken hash s t e = elim (Option-cases (first (hash_is hash) s.tokens)) [
  | inl nothing ↦ absurd (cc (nothing, e))
  | inr row ↦
      let same : first (hash_is hash) s.tokens ≡ some t = cc (row.1, e) in
      rw same (first-HasToken hash s.tokens t same)
]

update-HasUsed :
    (hash id device_id : String) (now : ℕ) (ts : List EnrollmentToken)
    → exists (λ u. token_is id u && hash_is hash u) ts ≡ true
    → exists
        (λ u. hash_is hash u && is_used u.used_at)
        (update (token_is id) (mark_used now device_id) ts)
      ≡ true
update-HasUsed hash id device_id now [] h = h
update-HasUsed hash id device_id now (t ∷ ts) h =
    ground (arith, update-HasUsed hash id device_id now ts)

insert_device-HasRow :
    (d : Device) (P : Store → Type 0)
    → ((s : Store) → P s → P (record s { devices = d ∷ s.devices }))
    → Triple P (insert_device d) (λ _ s. HasRow d s × P s)
unfolding insert_device
insert_device-HasRow d P k = record {
  run = λ s h a e. elim (Bool-cases (exists (device_clash d) s.devices)) [
    | inl clash ↦ absurd (cc (e, clash))
    | inr fresh ↦ rw fresh (rw (eq_refl d.id, eq_refl d.name, eq_refl d.tunnel_secret) refl, k s h)
  ];
}

get_token-HasToken :
    (hash : String)
    → Triple (λ _. Unit {0}) (get_enrollment_token_by_hash hash) (λ t s. HasToken hash t.id s)
unfolding get_enrollment_token_by_hash gets ◌>>=◌
get_token-HasToken hash =
    Triple-bind (λ _ _. Unit {0}) _ _ (Triple-keeps _ (statement-Keeps _ (λ s l h. h)))
      (λ _. record { run = λ s h t e. found-HasToken hash s t e })

refuse_used-Keeps : (P : Store → Type 0) (t : EnrollmentToken) → Keeps P (refuse_used t)
unfolding refuse_used
refuse_used-Keeps P t = record {
  run = λ s h. elim (Option-cases t.used_at) [ inl e ↦ rw e h | inr used ↦ rw used.1 h ];
}

mark_token-rows :
    (hash : String) (d : Device) (now : ℕ) (t : EnrollmentToken)
    → Triple {E = Error}
        (λ s. HasRow d s × HasToken hash t.id s)
        (modify (λ s. record s { tokens = update (token_is t.id) (mark_used now d.id) s.tokens }))
        (λ _ s. HasRow d s × HasUsed hash s)
unfolding modify
mark_token-rows hash d now t = record {
  run = λ s h a e. (h.0, update-HasUsed hash t.id d.id now s.tokens h.1);
}

consume_body-rows :
    (hash : String) (d : Device) (now : ℕ)
    → Triple (λ _. Unit {0}) (consume_body hash d now) (λ _ s. HasRow d s × HasUsed hash s)
unfolding consume_body
consume_body-rows hash d now =
    Triple-bind (λ _ _. Unit {0}) _ _ (Triple-keeps _ (statement-Keeps _ (λ s l h. h)))
      λ _.
        Triple-bind (λ t s. HasToken hash t.id s) _ _ (get_token-HasToken hash)
          λ t.
            Triple-bind (λ _ s. HasToken hash t.id s) _ _ (Triple-keeps _ (refuse_used-Keeps _ t))
              λ _.
                Triple-bind (λ _ s. HasToken hash t.id s) _ _
                  (Triple-keeps _ (statement-Keeps _ (λ s l h. h)))
                  λ _.
                    Triple-bind (λ _ s. HasRow d s × HasToken hash t.id s) _ _
                      (insert_device-HasRow _ (HasToken hash t.id) (λ s h. h))
                      λ _.
                        Triple-bind (λ _ s. HasRow d s × HasToken hash t.id s) _ _
                          (Triple-keeps _ (statement-Keeps _ (λ s l h. h)))
                          λ _.
                            Triple-bind (λ _ s. HasRow d s × HasUsed hash s) _ _
                              (mark_token-rows hash d now t)
                              λ _. Triple-keeps _ (statement-Keeps _ (λ s l h. h))

consume-rows :
    (hash : String) (d : Device) (now : ℕ)
    → Triple
        (λ _. Unit {0})
        (consume_enrollment_token hash d now)
        (λ _ s. HasRow d s × HasUsed hash s)
unfolding consume_enrollment_token
consume-rows hash d now = record {
  run =
      λ s h a e. kept s (consume_body hash d now s) a e ((consume_body-rows hash d now).run s h a);
}
  where
    kept :
        (s : Store) (r : Result Error (Unit {0}) × Store) (a : Unit {0})
        → (roll_back s r).0 ≡ ok a
        → (r.0 ≡ ok a → HasRow d r.1 × HasUsed hash r.1)
        → HasRow d (roll_back s r).1 × HasUsed hash (roll_back s r).1
    kept s (ok tt, t) a e h = h refl
    kept s (err y, t) a e h = absurd (cc e)

on_store-rows :
    (hash : String) (d : Device) (now : ℕ)
    → Triple
        (λ (_ : Server). Unit {0})
        (on_store (consume_enrollment_token hash d now))
        (λ _ w. HasRow d w.store × HasUsed hash w.store)
unfolding on_store
on_store-rows hash d now = record {
  run = λ w h a e.
      stored w (consume_enrollment_token hash d now w.store) a e
        ((consume-rows hash d now).run w.store tt a);
}
  where
    stored :
        (w : Server) (r : Result Error (Unit {0}) × Store) (a : Unit {0})
        → (after_store w r).0 ≡ ok a
        → (r.0 ≡ ok a → HasRow d r.1 × HasUsed hash r.1)
        → HasRow d (after_store w r).1.store × HasUsed hash (after_store w r).1.store
    stored w (ok b, s) a e h = h refl
    stored w (err x, s) a e h = absurd (cc e)

-- the device of an answer, as its row
abbrev pub row_of : EnrolledDevice → Device
row_of d = new_device d.device_id d.device_name d.tunnel_secret 0

-- from the draw of the id and the secret on
enroll_rest :
    (hash name : String) (now : ℕ)
    → Triple
        (λ _. Unit {0})
        (do
          id ← on_error other random_text
          secret ← on_error other random_text
          on_error consume_error
              (on_store (consume_enrollment_token hash (new_device id name secret now) now))
          pure (record { device_id = id; device_name = name; tunnel_secret = secret }))
        (λ d w. (d.device_name ≡ name) × HasRow (row_of d) w.store × HasUsed hash w.store)
unfolding new_device
enroll_rest hash name now =
    Triple-bind (λ _ _. Unit {0}) _ _ (Triple-any _ _)
      λ id.
        Triple-bind (λ _ _. Unit {0}) _ _ (Triple-any _ _)
          λ secret.
            Triple-bind
              (λ _ w. HasRow (new_device id name secret now) w.store × HasUsed hash w.store) _ _
              (Triple-on_error _ _ (on_store-rows hash (new_device id name secret now) now))
              λ _.
                Triple-pure _
                  {Q = λ d w.
                    (d.device_name ≡ name) × HasRow (row_of d) w.store × HasUsed hash w.store}
                  (λ w h. (refl, h.0, h.1))

-- Once an enrollment has succeeded, there is a device of the id, the secret and the name that it
-- answered with, the name is the one that was asked for, and the token of the text is used.
pub enroll_device-rows :
    (raw name hash : String)
    → Triple
        (λ w. w.env.hash raw ≡ hash)
        (enroll_device raw name)
        (λ d w. (d.device_name ≡ name) × HasRow (row_of d) w.store × HasUsed hash w.store)
unfolding enroll_device
enroll_device-rows raw name hash =
    Triple-bind (λ _ w. w.env.hash raw ≡ hash) _ _ (Triple-keeps _ (Keeps-refuse_if _ _))
      λ _.
        Triple-bind (λ _ w. w.env.hash raw ≡ hash) _ _ (Triple-keeps _ (Keeps-refuse_if _ _))
          λ _.
            Triple-bind (λ hash' _. hash' ≡ hash) _ _ (Triple-gets _ (λ w h. h))
              λ hash'. Triple-given _ λ same. rw same (
                Triple-bind (λ _ _. Unit {0}) _ _ (Triple-any _ _)
                  λ tok.
                    Triple-bind (λ _ _. Unit {0}) _ _ (Triple-any _ _)
                      λ _.
                        Triple-bind (λ _ _. Unit {0}) _ _ (Triple-any _ _)
                          λ now.
                            Triple-bind (λ _ _. Unit {0}) _ _ (Triple-any _ _)
                              λ _. enroll_rest hash name now)
