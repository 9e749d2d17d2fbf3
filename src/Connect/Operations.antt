-- ===== src/Connect/Operations.antt =====
-- The three requests of `ConnectionRequestHandler` (src/connect/connection-request-handler.cc):
-- `connect`, `acknowledge` and `touch`.
use residue.Prelude.Map
use residue.Core.Client.{Client, construct, is_alive}
use residue.Core.Configuration.{Configuration}
use residue.Core.Registry.{Registry, client_exists, find_client, add_client, update_client}
use residue.Core.Request.{bad_request}
use residue.Connect.Request.{ConnectionRequest}
use residue.Connect.Outcome.{
  Env, Session, under_rsa, under_aes, standard, nothing, Outcome, error_response, client_response,
  respond_err,
}
use residue.Prelude.{
  ℕ, zero, suc, ◌/◌, Bool, true, false, not, ◌&&◌, none, some, [], if◌then◌else◌, Text, codes,
}

module _ (env : Env) (conf : Configuration) where
  -- `while (... clientExists(id) && attempts++ < 100)`: the attempts left, the next random id, and
  -- the id at hand.
  unfoldable pub pick_id : Registry → ℕ → ℕ → Text → Text
  pick_id registry zero draw id = id
  pick_id registry (suc left) draw id =
      let again = pick_id registry left (suc draw) (env.random_id draw) in
      if client_exists registry id then again else id

  abbrev pub request_client : ConnectionRequest → Client
  request_client r =
      construct r.client_id r.rsa_public_key r.key_size env.now (env.generate_key 0 r.key_size)
        (env.generate_key 1 128) env.unset

  -- A client that is connected and has died gets a new key, and keeps the old one as a backup.
  unfoldable pub rekey : ConnectionRequest → Client → Client
  rekey r client = if is_alive client env.now 0 then client else record client {
    backup_key = client.key;
    key = env.generate_key 2 r.key_size;
    key_size = r.key_size / 8;
  }

  -- The answer to a client that is connected already: a clone without what need not be sent.
  abbrev pub clone : ConnectionRequest → Client → Client
  clone r client = record (request_client r) {
    acknowledged = false;
    key = client.key;
    key_size = client.key_size;
    age = 0;
    date_created = 0;
    token = [];
  }

  unfoldable pub reconnect : Registry → Session → ConnectionRequest → Client → Outcome
  unfolding rekey
  reconnect registry session r client = record {
    registry = record registry { clients = Map.modify registry.clients r.client_id (rekey r) };
    session = session;
    written = under_rsa (client_response (clone r (rekey r client)) false 0) client.rsa_public_key;
  }

  abbrev pub added : Session → Client → Registry × Bool → Outcome
  added session client (registry, true) = record {
    registry = registry;
    session = session;
    written =
        under_rsa
          (record (client_response client false 0) { client_date_created = 0; client_age = 0 })
          client.rsa_public_key;
  }
  added session client (registry, false) = record {
    registry = registry;
    session = session;
    written =
        under_rsa
          (error_response bad_request
            (codes "Failed! Potentially duplicate client ID, please ACKNOWLEDGE."))
          client.rsa_public_key;
  }

  abbrev pub new_client : ConnectionRequest → Bool → Client
  new_client r is_managed_client = record (request_client r) {
    is_managed = is_managed_client;
    age = conf.non_acknowledged_client_age;
  }

  unfoldable pub connect_new : Registry → Session → ConnectionRequest → Bool → Outcome
  connect_new registry session r is_managed_client =
      let client = new_client r is_managed_client in
      added session client (add_client registry client)

  -- `connect`; the request's own random id was the first draw.
  unfoldable pub on_connect : Registry → Session → ConnectionRequest → Bool → Outcome
  unfolding reconnect connect_new find_client
  on_connect registry session r is_managed_client =
      if is_managed_client
      then (elim (find_client registry r.client_id) [
        | some client ↦ reconnect registry session r client
        | none ↦ connect_new registry session r true
      ])
      else connect_new registry session
          (record r { client_id = pick_id registry 100 1 r.client_id }) false

  -- The client that `acknowledge` leaves behind, by `updateClient` with itself.
  abbrev pub acknowledged_client : Client → Client
  acknowledged_client c = record c {
    acknowledged = true;
    age = conf.client_age;
    date_created = env.now;
  }

  abbrev pub touched_client : Client → Client
  touched_client c = record c { age = conf.client_age; date_created = env.now }

  unfoldable pub store : Registry → Text → (Client → Client) → Registry
  store registry client_id change = record registry {
    clients = Map.modify registry.clients client_id change;
  }

  abbrev pub acknowledged_by : Session → Client → Registry × Bool → Outcome
  acknowledged_by session c (registry, true) = record {
    registry = registry;
    session = record session { client = some c.id };
    written = under_aes (client_response c true conf.logging_port) c.key;
  }
  acknowledged_by session c (registry, false) = record {
    registry = registry;
    session = session;
    written = nothing;
  }

  abbrev pub refuse_under_rsa : Registry → Session → Client → Text → Outcome
  refuse_under_rsa registry session c text = record {
    registry = registry;
    session = session;
    written = under_rsa (error_response bad_request text) c.rsa_public_key;
  }

  abbrev pub refuse_under_aes : Registry → Session → Client → Text → Outcome
  refuse_under_aes registry session c text = record {
    registry = registry;
    session = session;
    written = under_aes (error_response bad_request text) c.key;
  }

  -- `acknowledge`.
  unfoldable pub on_acknowledge : Registry → Session → ConnectionRequest → Outcome
  unfolding store find_client
  on_acknowledge registry session r = elim (find_client registry r.client_id) [
    | none ↦
        respond_err registry session
          (codes "Client with this ID does not exists. Please send CONNECT request first.")
    | some c ↦
        if not c.is_managed && c.acknowledged
        then refuse_under_rsa registry session c
            (codes "Cannot re-acknowledge unmanaged clients. Please TOUCH to refresh it.")
        else acknowledged_by session (acknowledged_client c)
            (update_client (store registry r.client_id acknowledged_client) (acknowledged_client c))
  ]

  -- `touch`.
  unfoldable pub on_touch : Registry → Session → ConnectionRequest → Outcome
  unfolding store find_client
  on_touch registry session r = elim (find_client registry r.client_id) [
    | none ↦ record { registry = registry; session = session; written = standard bad_request }
    | some c ↦
        if not c.acknowledged
        then refuse_under_aes registry session c
            (codes "Cannot touch a non-acknowledged client. Please ACKNOWLEDGE it first")
        else if not (is_alive c env.now 0)
        then refuse_under_aes registry session c
            (codes "Cannot touch dead client. Please reset the connection")
        else record {
          registry =
              (update_client (store registry r.client_id touched_client) (touched_client c)).0;
          session = session;
          written = under_aes (client_response (touched_client c) true conf.logging_port) c.key;
        }
  ]
