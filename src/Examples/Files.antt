-- ===== src/Examples/Files.antt =====
-- Files in memory, as a file system that keeps its laws, and the theorems on files with it.
use oh_my_lan.Prelude.{
  ◌≡◌, refl, String, Bool, true, false, none, some, List, [], ◌∷◌, ◌==◌, eq_refl, if◌then◌else◌,
}
use oh_my_lan.Exec.{ok, ◌>>=◌}
use oh_my_lan.Files.{FileSystem, IsLawful, ReadResult, missing, unreadable, content}
use oh_my_lan.Client.State.{DeviceState, save_state, load_state}
use oh_my_lan.Client.Saving.{Saved, save_state-Saved, load_state-save_state}
use oh_my_lan.Client.SshKey.{KeyPair, ensure_ssh_key, ensure_ssh_key-again}
use oh_my_lan.Server.KeySeed.{load_or_create_key_seed, load_or_create_key_seed-again}

abbrev find : String → List (String × String) → ReadResult
find p [] = missing
find p ((q, text) ∷ files) = if p == q then content text else find p files

abbrev moved : ReadResult → String → List (String × String) → Bool × List (String × String)
moved (content text) q files = (false, (q, text) ∷ files)
moved missing q files = (true, files)
moved unreadable q files = (true, files)

abbrev pub memory : FileSystem
memory = record {
  State = List (String × String);
  read = find;
  make_dir = λ d s. (false, s);
  write = λ p text s. (false, (p, text) ∷ s);
  rename = λ p q s. moved (find p s) q s;
}

find-moved :
    (r : ReadResult) (q : String) (s : List (String × String))
    → (moved r q s).0 ≡ false
    → find q (moved r q s).1 ≡ r
find-moved (content text) q s h = rw (eq_refl q) refl
find-moved missing q s h = absurd (cc h)
find-moved unreadable q s h = absurd (cc h)

find-not_moved :
    (r : ReadResult) (q x : String) (s : List (String × String))
    → (moved r q s).0 ≡ true
    → find x (moved r q s).1 ≡ find x s
find-not_moved (content text) q x s h = absurd (cc h)
find-not_moved missing q x s h = refl
find-not_moved unreadable q x s h = refl

pub memory-IsLawful : IsLawful memory
memory-IsLawful = record {
  read-make_dir = λ d p s. refl;
  read-write = λ p text s h. rw (eq_refl p) refl;
  read-write_other = λ p q text s h. rw h refl;
  read-rename = λ p q s h. find-moved (find p s) q s h;
  read-rename_failed = λ p q r s h. find-not_moved (find p s) q r s h;
}

save_state-Saved_example :
    Saved memory memory-IsLawful "/d/state.json" "{}" []
      (save_state memory "/d" "/d/state.json" "{}" [])
save_state-Saved_example = save_state-Saved memory memory-IsLawful "/d" "/d/state.json" "{}" []

abbrev pub laptop_state : DeviceState
laptop_state = record {
  server_url = "http://vps:8080";
  device_id = "d1";
  device_name = "laptop";
  tunnel_secret = "s1";
  server_fingerprint = "f";
  chisel_addr = "vps:8443";
  ssh_username = "oml-d1";
  ssh_host = "vps";
  ssh_port = 22;
}

load_state-save_state_example :
    load_state memory
      (λ t. some laptop_state)
      "/d/state.json"
      (save_state memory "/d" "/d/state.json" "{}" []).1
    ≡ ok laptop_state
unfolding save_state ◌>>=◌
load_state-save_state_example =
    load_state-save_state memory memory-IsLawful (λ t. some laptop_state) (λ d. "{}") "/d"
      "/d/state.json" laptop_state [] refl refl refl

load_or_create_key_seed-again_example :
    load_or_create_key_seed memory "/d" "" none
      (load_or_create_key_seed memory "/d" "" (some "abc") []).1
    ≡ (ok "abc", (load_or_create_key_seed memory "/d" "" (some "abc") []).1)
unfolding load_or_create_key_seed ◌>>=◌
load_or_create_key_seed-again_example =
    load_or_create_key_seed-again memory memory-IsLawful "/d" "" "abc" "abc" none [] refl refl

abbrev pair : KeyPair
pair = record { pem = "-----"; authorized_key = some "ssh-ed25519 AAAA\n" }

ensure_ssh_key-again_example :
    (ensure_ssh_key memory "/d" none (ensure_ssh_key memory "/d" (some pair) []).1).0
    ≡ ok ("/d/ssh_key", "ssh-ed25519 AAAA oml-managed")
unfolding ensure_ssh_key ◌>>=◌
ensure_ssh_key-again_example =
    ensure_ssh_key-again memory memory-IsLawful "/d" "/d/ssh_key" "ssh-ed25519 AAAA oml-managed"
      pair none [] refl refl refl
