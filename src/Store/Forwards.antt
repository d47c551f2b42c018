-- ===== src/Store/Forwards.antt =====
-- internal/store/forward.go
use oh_my_lan.Prelude.{
  ℕ, String, Bool, false, ◌&&◌, ◌||◌, Option, none, some, List, [], ◌∷◌, ◌==◌, nat_eq, ltb, exists,
  first, select, delete, update, sort_by, if◌then◌else◌,
}
use oh_my_lan.Exec.{ok, err, Exec, gets, ◌>>=◌, ◌>>◌}
use oh_my_lan.Time.{text_lt}
use oh_my_lan.Store.{
  Device, Service, Forward, Store, Error, not_found, unique, foreign_key, statement, found,
}
use oh_my_lan.Store.Devices.{device_is}
use oh_my_lan.Store.Services.{service_is}

-- PRIMARY KEY(id), UNIQUE(owner_device_id, local_port)
abbrev pub forward_clash : Forward → Forward → Bool
forward_clash f g =
    f.id == g.id || (f.owner_device_id == g.owner_device_id && nat_eq f.local_port g.local_port)

-- INSERT INTO forwards: the keys, then the references to the owner and to the service.
unfoldable pub insert_forward : Forward → Exec Store Error (Unit {0})
insert_forward f s =
    if exists (forward_clash f) s.forwards
    then (err unique, s)
    else if exists (device_is f.owner_device_id) s.devices
        && exists (service_is f.remote_service_id) s.services
    then (ok tt, record s { forwards = f ∷ s.forwards })
    else (err foreign_key, s)

unfoldable pub create_forward : Forward → Exec Store Error (Unit {0})
unfolding insert_forward
create_forward f = do statement; insert_forward f

abbrev pub forward_is : String → Forward → Bool
forward_is id f = f.id == id

unfoldable pub get_forward : String → Exec Store Error Forward
unfolding found
get_forward id = do statement; row ← gets (λ s. first (forward_is id) s.forwards); found row

abbrev pub lower_port : Forward → Forward → Bool
lower_port f g = ltb f.local_port g.local_port

unfoldable pub list_forwards_by_owner : String → Exec Store Error (List Forward)
list_forwards_by_owner owner = do
  statement
  gets (λ s. sort_by lower_port (select (λ f. f.owner_device_id == owner) s.forwards))

abbrev pub forward_enabled : Bool → Forward → Forward
forward_enabled b f = record f { enabled = b }

unfoldable pub update_forward : String → (Forward → Forward) → Exec Store Error (Unit {0})
update_forward id f s =
    if exists (forward_is id) s.forwards
    then (ok tt, record s { forwards = update (forward_is id) f s.forwards })
    else (err not_found, s)

unfoldable pub set_forward_enabled : String → Bool → Exec Store Error (Unit {0})
unfolding update_forward
set_forward_enabled id b = do statement; update_forward id (forward_enabled b)

unfoldable pub delete_forward_row : String → Exec Store Error (Unit {0})
delete_forward_row id s =
    if exists (forward_is id) s.forwards
    then (ok tt, record s { forwards = delete (forward_is id) s.forwards })
    else (err not_found, s)

unfoldable pub delete_forward : String → Exec Store Error (Unit {0})
unfolding delete_forward_row
delete_forward id = do statement; delete_forward_row id

pub record ForwardListItem : Type 0 where
  pub forward : Forward
  pub owner_device_name : String
  pub remote_service_name : String
  pub remote_public_port : ℕ
  pub protocol : String
  pub remote_device_id : String
  pub remote_device_name : String
  pub remote_service_enabled : Bool

-- COALESCE(name, '')
abbrev pub name_or_empty : Option Device → String
name_or_empty none = ""
name_or_empty (some d) = d.name

-- The LEFT JOINs: a column of a missing row is the zero value.
abbrev pub join_service : List Device → Forward → Option Service → ForwardListItem
join_service ds f none = record {
  forward = f;
  owner_device_name = name_or_empty (first (device_is f.owner_device_id) ds);
  remote_service_name = "";
  remote_public_port = 0;
  protocol = "";
  remote_device_id = "";
  remote_device_name = "";
  remote_service_enabled = false;
}
join_service ds f (some v) = record {
  forward = f;
  owner_device_name = name_or_empty (first (device_is f.owner_device_id) ds);
  remote_service_name = v.name;
  remote_public_port = v.public_port;
  protocol = v.protocol;
  remote_device_id = v.device_id;
  remote_device_name = name_or_empty (first (device_is v.device_id) ds);
  remote_service_enabled = v.enabled;
}

unfoldable pub join_forwards : List Device → List Service → List Forward → List ForwardListItem
join_forwards ds vs [] = []
join_forwards ds vs (f ∷ fs) =
    join_service ds f (first (service_is f.remote_service_id) vs) ∷ join_forwards ds vs fs

-- The empty id stands for every owner, in the order of creation.
unfoldable pub list_forwards_joined : String → Exec Store Error (List ForwardListItem)
unfolding join_forwards
list_forwards_joined owner = do
  statement
  gets (λ s. join_forwards s.devices s.services (
      if owner == ""
      then sort_by (λ f g. text_lt f.created_at g.created_at) s.forwards
      else sort_by lower_port (select (λ f. f.owner_device_id == owner) s.forwards)))
