-- ===== src/Daemon/Reload.antt =====
-- What the reload watch of the daemon sees.
use oh_my_lan.Prelude.{◌≡◌, refl, ap, String, Bool, List, [], ◌∷◌, map, sort_by}
use mathlib.Core.Path.{ap₂}
use Prim.Native.String.{◌++◌}
use oh_my_lan.Tunnel.{Remote, Local}
use oh_my_lan.Daemon.{remote_key, hash_specs, local_key}
use oh_my_lan.Text.Search.{join}

-- the remote with another bind address
abbrev pub rebind : Bool → Remote → Remote
rebind b r = record r { bind_local = b }

map-rebind : (b : Bool) (rs : List Remote) → map remote_key (map (rebind b) rs) ≡ map remote_key rs
unfolding remote_key
map-rebind b [] = refl
map-rebind b (r ∷ rs) = ap₂ ◌∷◌ refl (map-rebind b rs)

-- The hash by which the daemon sees a change of its configuration is the same whatever the bind
-- addresses of its remotes are: whether a service is open to every address is not part of it.
pub hash_specs-rebind :
    (lt : String → String → Bool) (sum : String → String) (b : Bool) (rs : List Remote)
    (ls : List Local)
    → hash_specs lt sum (map (rebind b) rs) ls ≡ hash_specs lt sum rs ls
unfolding hash_specs
hash_specs-rebind lt sum b rs ls =
    ap
      (λ keys.
        sum (join "\n" (sort_by lt keys) ++ "\n--\n" ++ join "\n" (sort_by lt (map local_key ls))))
      (map-rebind b rs)
