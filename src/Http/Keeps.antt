-- ===== src/Http/Keeps.antt =====
-- The rules for requests: those for the server, and for what only decides how a request goes on.
use oh_my_lan.Prelude.{ℕ, String, Option, none, some, ℤ}
use oh_my_lan.Exec.{pure, raise}
use oh_my_lan.Exec.Keeps.{Keeps}
use oh_my_lan.Store.{Store}
use oh_my_lan.Store.Keeps.{StoreKeeps}
use oh_my_lan.Server.{Server}
use oh_my_lan.Server.Keeps.{InStore, server_rules}
use oh_my_lan.Http.{decoded}
use oh_my_lan.Api.Ports.{or_exhausted, allocate}
use oh_my_lan.Enroll.{issue_token, enroll_device}

module _ {P : Server → Type 0} where
  pub Keeps-decoded : {A : Type 0} (o : Option A) → Keeps P (decoded o)
  unfolding decoded
  Keeps-decoded none = record { run = λ w h. h }
  Keeps-decoded (some a) = record { run = λ w h. h }

  pub Keeps-or_exhausted : (o : Option ℕ) → Keeps P (or_exhausted o)
  unfolding or_exhausted pure raise
  Keeps-or_exhausted none = record { run = λ w h. h }
  Keeps-or_exhausted (some port) = record { run = λ w h. h }

module _ {P : Store → Type 0} (k : StoreKeeps P) where
  pub Keeps-allocate : Keeps (InStore P) allocate
  unfolding allocate
  Keeps-allocate = search (server_rules, Keeps-or_exhausted) depth 20

  pub Keeps-issue_token : (ttl : ℤ) → Keeps (InStore P) (issue_token ttl)
  unfolding issue_token
  Keeps-issue_token ttl = search (server_rules, k.at_create_token) depth 20

  pub Keeps-enroll_device : (raw name : String) → Keeps (InStore P) (enroll_device raw name)
  unfolding enroll_device
  Keeps-enroll_device raw name = search (server_rules, k.at_consume) depth 30

pub ruleset request_rules =
    (server_rules, Keeps-decoded, Keeps-allocate, Keeps-issue_token, Keeps-enroll_device)
