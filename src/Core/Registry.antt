-- ===== src/Core/Registry.antt =====
-- `Registry` (src/core/registry.cc, registry.h). A session stands for itself by its id. A call is a
-- function from the state to the state, for calls that do not overlap: the clients, the sessions and
-- the rotators are under locks, but the counters of bytes are not.
pub mod Calls
pub mod Clients
use residue.Prelude.Map
use residue.Prelude.Map.{Map, is_some}
use residue.Core.Client.{Client}
use residue.Utils.BigAdd.{big_add, to_string}
use residue.Prelude.{
  ℕ, ◌+◌, Bool, true, false, ◌||◌, Option, none, some, List, [], ◌∷◌, ◌++◌, ◌==◌, if◌then◌else◌,
  Text, codes, text_eq,
}

pub record ActiveSession : Type 0 where
  pub session : Text
  pub time_created : ℕ

pub record Registry : Type 0 where
  pub clients : Map Client
  pub active_sessions : List ActiveSession
  pub log_rotators : List ℕ
  pub bytes_sent : Text
  pub bytes_received : Text

abbrev pub initial : Registry
initial = record {
  clients = [];
  active_sessions = [];
  log_rotators = [];
  bytes_sent = codes "0";
  bytes_received = codes "0";
}

unfoldable pub client_exists : Registry → Text → Bool
client_exists r client_id = is_some (Map.find r.clients client_id)

unfoldable pub add_client : Registry → Client → Registry × Bool
unfolding client_exists
add_client r client =
    if client_exists r client.id
    then (r, false)
    else (record r { clients = Map.insert r.clients client.id client }, true)

-- What `updateClient` copies onto the client that is there.
unfoldable pub refresh : Client → Client → Client
refresh client existing = record existing {
  key = client.key;
  age = client.age;
  date_created = client.date_created;
  key_size = client.key_size;
  acknowledged = client.acknowledged;
  rsa_public_key = client.rsa_public_key;
}

unfoldable pub update_client : Registry → Client → Registry × Bool
unfolding refresh client_exists
update_client r client =
    if client_exists r client.id
    then (record r { clients = Map.modify r.clients client.id (refresh client) }, true)
    else (r, false)

unfoldable pub find_client : Registry → Text → Option Client
find_client r client_id = Map.find r.clients client_id

-- `none` is the null pointer.
unfoldable pub remove_client : Registry → Option Client → Registry
remove_client r none = r
remove_client r (some client) = record r { clients = Map.erase r.clients client.id }

unfoldable pub join : Registry → Text → ℕ → Registry
join r session now = record r {
  active_sessions = r.active_sessions ++ record { session = session; time_created = now } ∷ [];
}

-- `find_if` and `erase`: the first session of that id goes.
erase_session : List ActiveSession → Text → List ActiveSession
erase_session [] id = []
erase_session (s ∷ ss) id = if text_eq s.session id then ss else s ∷ erase_session ss id

unfoldable pub leave : Registry → Text → Registry
unfolding erase_session
leave r session = record r { active_sessions = erase_session r.active_sessions session }

unfoldable pub add_bytes_received : Registry → ℕ → Registry
add_bytes_received r v = record r { bytes_received = big_add r.bytes_received (to_string v) }

unfoldable pub add_bytes_sent : Registry → ℕ → Registry
add_bytes_sent r v = record r { bytes_sent = big_add r.bytes_sent (to_string v) }

has_rotator : List ℕ → ℕ → Bool
has_rotator [] rotator = false
has_rotator (x ∷ xs) rotator = x == rotator || has_rotator xs rotator

unfoldable pub add_log_rotator : Registry → ℕ → Registry
unfolding has_rotator
add_log_rotator r rotator =
    if has_rotator r.log_rotators rotator
    then r
    else record r { log_rotators = r.log_rotators ++ rotator ∷ [] }

-- `reset`; `reload` is `reloadConfig` on the rest of the server.
unfoldable pub reset {ℓ} : {S : Type ℓ} → (S → S) → S × Registry → S × Registry
reset reload (s, r) = (
  reload s,
  record r {
    clients = [];
    active_sessions = [];
    bytes_received = codes "0";
    bytes_sent = codes "0";
  },
)
