-- ===== src/Core/Registry/Clients.antt =====
-- The clients of `Registry` (src/core/registry.cc) as a partial function of the id, and each call as
-- a change of it.
use residue.Prelude.Map
use residue.Prelude.Map.{Map, is_some, map_option}
use residue.Core.Client.{Client}
use residue.Core.Registry.{
  Registry, add_client, update_client, find_client, remove_client, refresh, client_exists,
}
use residue.Prelude.{
  ◌≡◌, refl, not, ◌&&◌, Option, none, some, [], ◌∷◌, arith, if◌then◌else◌, All, Text, text_eq,
  text_eq_iff,
}

-- An entry's key is the id of the client that it holds.
abbrev pub IsKeyed : Map Client → Type 0
IsKeyed m = All (λ (e : Text × Client). e.0 ≡ e.1.id) m

pub record IsWellFormed (m : Map Client) : Type 0 where
  pub unique : Map.UniqueKeys m
  pub keyed : IsKeyed m

IsKeyed-insert : (m : Map Client) (c : Client) → IsKeyed m → IsKeyed (Map.insert m c.id c)
unfolding Map.insert
IsKeyed-insert [] c h = (refl, tt)
IsKeyed-insert ((k, d) ∷ m) c h = ground (arith, IsKeyed-insert m c h.1)

pub IsKeyed-modify :
    (m : Map Client) (k : Text) (f : Client → Client)
    → ((c : Client) → (f c).id ≡ c.id)
    → IsKeyed m
    → IsKeyed (Map.modify m k f)
unfolding Map.modify
IsKeyed-modify [] k f same h = h
IsKeyed-modify ((j, d) ∷ m) k f same h = ground (arith, same d, IsKeyed-modify m k f same h.1)

pub IsKeyed-erase : (m : Map Client) (k : Text) → IsKeyed m → IsKeyed (Map.erase m k)
unfolding Map.erase
IsKeyed-erase [] k h = h
IsKeyed-erase ((j, d) ∷ m) k h = ground (arith, IsKeyed-erase m k h.1)

pub IsKeyed-find :
    (m : Map Client) (k : Text) (c : Client) → IsKeyed m → Map.find m k ≡ some c → k ≡ c.id
unfolding Map.find
IsKeyed-find [] k c h e = ground arith
IsKeyed-find ((j, d) ∷ m) k c h e = ground (arith, text_eq_iff j k, IsKeyed-find m k c h.1)

pub add_client-IsWellFormed :
    (r : Registry) (c : Client) → IsWellFormed r.clients → IsWellFormed (add_client r c).0.clients
unfolding add_client
add_client-IsWellFormed r c w =
    ground (arith, Map.UniqueKeys-insert r.clients c.id c, IsKeyed-insert r.clients c)

pub update_client-IsWellFormed :
    (r : Registry) (c : Client)
    → IsWellFormed r.clients
    → IsWellFormed (update_client r c).0.clients
unfolding update_client
update_client-IsWellFormed r c w = ground (
  arith,
  Map.UniqueKeys-modify r.clients c.id (refresh c),
  IsKeyed-modify r.clients c.id (refresh c) (λ d. refl),
)

pub remove_client-IsWellFormed :
    (r : Registry) (o : Option Client)
    → IsWellFormed r.clients
    → IsWellFormed (remove_client r o).clients
unfolding remove_client
remove_client-IsWellFormed r none w = w
remove_client-IsWellFormed r (some c) w =
    ground (arith, Map.UniqueKeys-erase r.clients c.id, IsKeyed-erase r.clients c.id)

-- `addClient` fails exactly when the id is taken, and then changes nothing; else the id, and no
-- other, leads to the new client.
pub find_client-add_client :
    (r : Registry) (c : Client) (id : Text)
    → ((add_client r c).1 ≡ not (client_exists r c.id))
      × (find_client (add_client r c).0 id
          ≡ (if not (client_exists r c.id) && text_eq c.id id then some c else find_client r id))
unfolding add_client find_client
find_client-add_client r c id = ground (arith, Map.find-insert r.clients c.id id c)

-- `updateClient` fails exactly when the id is unknown; else it changes that client alone, and of
-- it neither the token, nor the backup key, nor whether it is managed.
pub find_client-update_client :
    (r : Registry) (c : Client) (id : Text)
    → ((update_client r c).1 ≡ client_exists r c.id)
      × (find_client (update_client r c).0 id ≡ (
          if text_eq c.id id
          then map_option
              (λ d. record c {
                id = d.id;
                token = d.token;
                is_managed = d.is_managed;
                backup_key = d.backup_key;
              })
              (find_client r id)
          else find_client r id))
unfolding update_client find_client
find_client-update_client r c id =
    ground (arith, text_eq_iff c.id id, Map.find-modify r.clients c.id id (refresh c))

-- `removeClient` of a client removes its id and nothing else; of the null pointer, nothing.
pub find_client-remove_client :
    (r : Registry) (o : Option Client) (id : Text)
    → IsWellFormed r.clients
    → find_client (remove_client r o) id ≡ elim o [
      | none ↦ find_client r id
      | some c ↦ if text_eq c.id id then none else find_client r id
    ]
unfolding remove_client find_client
find_client-remove_client r none id w = refl
find_client-remove_client r (some c) id w = Map.find-erase r.clients c.id id w.unique
