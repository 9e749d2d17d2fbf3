-- ===== src/Examples/Connections.antt =====
-- The theorems on connections, at work.
use residue.Core.Client.{Client}
use residue.Core.Registry.{find_client, update_client, client_exists}
use residue.Core.Registry.Clients.{IsWellFormed}
use residue.Connect.Request.{ConnectionRequest, connect, acknowledge, touch}
use residue.Connect.Operations.{on_touch, on_connect, pick_id, new_client}
use residue.Connect.Handler.{handle}
use residue.Connect.Handler.Secrets.{IsSealed, handle-IsSealed}
use residue.Connect.Handler.Acknowledged.{handle-Explained}
use residue.Connect.Handler.Invariant.{Evolves, handle-Survives, handle-IsWellFormed}
use residue.Connect.Handler.Life.{may_touch, on_touch_lem, on_connect_new}
use residue.Prelude.Map
use residue.Examples.Data.{
  registry-IsWellFormed, bob_there, bob, registry, conf, env, session, connection_request,
}
use residue.Prelude.{
  ◌≡◌, refl, ◌⊎◌, true, false, ◌&&◌, none, some, arith, if◌then◌else◌, Text, codes, text_eq,
}

abbrev bob_touches : ConnectionRequest
bob_touches = connection_request touch (codes "bob")

abbrev alice_connects : ConnectionRequest
alice_connects = connection_request connect (codes "alice")

abbrev bob_acknowledges : ConnectionRequest
bob_acknowledges = connection_request acknowledge (codes "bob")

handle-IsSealed_example :
    let o = handle env conf registry session alice_connects in IsSealed o.registry o.written
handle-IsSealed_example =
    handle-IsSealed env conf registry session alice_connects registry-IsWellFormed

abbrev acknowledged_bob : Client
acknowledged_bob = record bob { acknowledged = true; age = 600; date_created = 130 }

bob_acknowledged :
    find_client (handle env conf registry session bob_acknowledges).registry (codes "bob")
    ≡ some acknowledged_bob
unfolding find_client update_client Map.find Map.modify text_eq handle
bob_acknowledged = refl

handle-Explained_example :
    ((acknowledge ≡ acknowledge) × (codes "bob" ≡ codes "bob"))
    ⊎ ((c : Client) × (find_client registry (codes "bob") ≡ some c) × (c.acknowledged ≡ true))
handle-Explained_example =
    handle-Explained env conf registry session bob_acknowledges (codes "bob") acknowledged_bob
      registry-IsWellFormed bob_acknowledged refl

handle-Survives_example :
    (d : Client) × (find_client
        (handle env conf registry session alice_connects).registry
        (codes "bob")
      ≡ some d)
    × Evolves env conf bob d
handle-Survives_example =
    handle-Survives env conf registry session alice_connects (codes "bob") bob registry-IsWellFormed
      bob_there

handle-IsWellFormed_example :
    IsWellFormed (handle env conf registry session bob_acknowledges).registry.clients
handle-IsWellFormed_example =
    handle-IsWellFormed env conf registry session bob_acknowledges registry-IsWellFormed

on_touch_lem_example :
    find_client (on_touch env conf registry session bob_touches).registry (codes "bob")
    ≡ elim (find_client registry (codes "bob")) [
      | none ↦ find_client registry (codes "bob")
      | some c ↦
          if may_touch env conf registry session c && text_eq (codes "bob") (codes "bob")
          then some (record c { age = 600; date_created = 130 })
          else find_client registry (codes "bob")
    ]
on_touch_lem_example =
    on_touch_lem env conf registry session bob_touches (codes "bob") registry-IsWellFormed

nobody : client_exists registry (codes "carol") ≡ false
unfolding client_exists Map.find text_eq
nobody = refl

abbrev carol_connects : ConnectionRequest
carol_connects = connection_request connect (codes "carol")

on_connect_new_example :
    let id = pick_id env conf registry 100 1 (codes "carol") in
    let o = on_connect env conf registry session carol_connects false in
    (client_exists registry id ≡ false)
    × ((j : Text)
        → find_client o.registry j ≡ (
            if text_eq id j
            then some (new_client env conf (record carol_connects { client_id = id }) false)
            else find_client registry j))
on_connect_new_example =
    on_connect_new env conf registry session carol_connects 0 (omega arith) nobody
