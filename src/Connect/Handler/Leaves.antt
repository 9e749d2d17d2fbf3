-- ===== src/Connect/Handler/Leaves.antt =====
-- The outcomes of `ConnectionRequestHandler::handle` (src/connect/connection-request-handler.cc), one
-- for each way through it.
use residue.Core.Client.{Client, is_alive}
use residue.Core.Configuration.{Configuration}
use residue.Core.Registry.{Registry, find_client, update_client}
use residue.Core.Registry.Clients.{IsWellFormed}
use residue.Core.Request.{StatusCode, bad_request}
use residue.Connect.Request.{ConnectionRequest, connect, acknowledge, touch}
use residue.Connect.Operations.{
  store, reconnect, connect_new, pick_id, on_connect, on_acknowledge, on_touch, acknowledged_client,
  touched_client, acknowledged_by, refuse_under_rsa, refuse_under_aes,
}
use residue.Connect.Outcome.{
  Env, Session, Outcome, plain, standard, nothing, under_aes, client_response, error_response,
}
use residue.Connect.Lookup.{find_client-store}
use residue.Connect.Handler.{handle}
use residue.Connect.Handler.Cases.{handle_cases}
use residue.Prelude.{
  ◌≡◌, refl, sym, subst, ◌⊎◌, inl, inr, Bool, true, false, not, ◌&&◌, some, arith, if◌then◌else◌,
  Option-cases, Text, codes, if_cases,
}

pub record Leaves {ℓ} (env : Env) (conf : Configuration) (registry : Registry) (session : Session)
    (request : ConnectionRequest) (P : Outcome → Type ℓ) : Type ℓ where
  pub refused :
      (status : StatusCode) (text : Text)
      → P (record {
        registry = registry;
        session = session;
        written = plain (error_response status text);
      })
  pub ignored : P (record { registry = registry; session = session; written = nothing })
  pub reconnected :
      (r : ConnectionRequest) (c : Client)
      → request.kind ≡ connect
      → find_client registry r.client_id ≡ some c
      → P (reconnect env conf registry session r c)
  pub connected :
      (r : ConnectionRequest) (managed : Bool)
      → request.kind ≡ connect
      → P (connect_new env conf registry session r managed)
  pub not_again : (c : Client) (text : Text) → P (refuse_under_rsa env conf registry session c text)
  pub acknowledged :
      (c : Client)
      → request.kind ≡ acknowledge
      → find_client registry request.client_id ≡ some c
      → ((c.is_managed ≡ true) ⊎ (c.acknowledged ≡ false))
      → P (record {
        registry =
            (update_client
              (store env conf registry request.client_id (acknowledged_client env conf))
              (acknowledged_client env conf c)).0;
        session = record session { client = some c.id };
        written =
            under_aes
              (client_response (acknowledged_client env conf c) true conf.logging_port)
              c.key;
      })
  pub missing :
      P (record { registry = registry; session = session; written = standard bad_request })
  pub untouched :
      (c : Client) (text : Text)
      → find_client registry request.client_id ≡ some c
      → P (refuse_under_aes env conf registry session c text)
  pub touched :
      (c : Client)
      → request.kind ≡ touch
      → find_client registry request.client_id ≡ some c
      → c.acknowledged ≡ true
      → is_alive c env.now 0 ≡ true
      → P (record {
        registry =
            (update_client
              (store env conf registry request.client_id (touched_client env conf))
              (touched_client env conf c)).0;
        session = session;
        written =
            under_aes (client_response (touched_client env conf c) true conf.logging_port) c.key;
      })

stored_lem :
    (env : Env) (conf : Configuration) (session : Session) (c : Client) (p : Registry × Bool)
    → p.1 ≡ true
    → acknowledged_by env conf session c p ≡ record {
      registry = p.0;
      session = record session { client = some c.id };
      written = under_aes (client_response c true conf.logging_port) c.key;
    }
stored_lem env conf session c (q, true) e = refl
stored_lem env conf session c (q, false) e = cc

module _ {ℓ} {env : Env} {conf : Configuration} {registry : Registry} {session : Session}
    {request : ConnectionRequest} (P : Outcome → Type ℓ)
    (leaves : Leaves env conf registry session request P) (w : IsWellFormed registry.clients) where
  connect_leaves :
      (r : ConnectionRequest) (managed : Bool)
      → request.kind ≡ connect
      → P (on_connect env conf registry session r managed)
  unfolding on_connect
  connect_leaves r false k =
      leaves.connected (record r { client_id = pick_id env conf registry 100 1 r.client_id }) false
        k
  connect_leaves r true k = elim (Option-cases (find_client registry r.client_id)) [
    | inl e ↦ rw (e, on_connect) (leaves.connected r true k)
    | inr (c, e) ↦ rw (e, on_connect) (leaves.reconnected r c k e)
  ]

  acknowledge_leaves :
      (r : ConnectionRequest)
      → request.kind ≡ acknowledge
      → r.client_id ≡ request.client_id
      → P (on_acknowledge env conf registry session r)
  unfolding on_acknowledge
  acknowledge_leaves r k id = elim (Option-cases (find_client registry r.client_id)) [
    | inl e ↦
        rw (e, on_acknowledge)
          (leaves.refused bad_request
            (codes "Client with this ID does not exists. Please send CONNECT request first."))
    | inr (c, e) ↦
        rw (e, on_acknowledge)
          (if_cases P (not c.is_managed && c.acknowledged)
            (refuse_under_rsa env conf registry session c
              (codes "Cannot re-acknowledge unmanaged clients. Please TOUCH to refresh it."))
            (acknowledged_by env conf session (acknowledged_client env conf c) (
              update_client (store env conf registry r.client_id (acknowledged_client env conf))
                (acknowledged_client env conf c)))
            (λ _. leaves.not_again c _) (λ n. rw id (done c (rw id at e) (ground arith))))
  ]
    where
      done :
          (c : Client)
          → find_client registry request.client_id ≡ some c
          → ((c.is_managed ≡ true) ⊎ (c.acknowledged ≡ false))
          → P (
              acknowledged_by env conf session (acknowledged_client env conf c) (
                update_client
                  (store env conf registry request.client_id (acknowledged_client env conf))
                  (acknowledged_client env conf c)))
      done c e may =
          let f = acknowledged_client env conf in
          let p = update_client (store env conf registry request.client_id f) (f c) in
          subst P
            (sym (
              stored_lem env conf session (f c) p
                (find_client-store env conf registry request.client_id c f (λ d. refl) w e
                  request.client_id).1))
            (leaves.acknowledged c k e may)

  touch_leaves :
      (r : ConnectionRequest)
      → request.kind ≡ touch
      → r.client_id ≡ request.client_id
      → P (on_touch env conf registry session r)
  unfolding on_touch
  touch_leaves r k id = elim (Option-cases (find_client registry r.client_id)) [
    | inl e ↦ rw (e, on_touch) leaves.missing
    | inr (c, e) ↦
        let e' : find_client registry request.client_id ≡ some c = rw id at e in
        rw (e, on_touch)
          (rw id (
            if_cases P (not c.acknowledged)
              (refuse_under_aes env conf registry session c unacknowledged)
              (if not (is_alive c env.now 0)
                then refuse_under_aes env conf registry session c dead
                else refreshed c)
              (λ _. leaves.untouched c unacknowledged e')
              (λ ack.
                if_cases P (not (is_alive c env.now 0))
                  (refuse_under_aes env conf registry session c dead) (refreshed c)
                  (λ _. leaves.untouched c dead e')
                  (λ alive. leaves.touched c k e' (ground arith) (ground arith)))))
  ]
    where
      unacknowledged : Text
      unacknowledged = codes "Cannot touch a non-acknowledged client. Please ACKNOWLEDGE it first"

      dead : Text
      dead = codes "Cannot touch dead client. Please reset the connection"

      refreshed : Client → Outcome
      refreshed c = record {
        registry =
            (update_client (store env conf registry request.client_id (touched_client env conf))
              (touched_client env conf c)).0;
        session = session;
        written =
            under_aes (client_response (touched_client env conf c) true conf.logging_port) c.key;
      }

  pub handle_leaves : P (handle env conf registry session request)
  handle_leaves = handle_cases P (record {
    refused = leaves.refused;
    ignored = leaves.ignored;
    connected = connect_leaves;
    acknowledged = acknowledge_leaves;
    touched = touch_leaves;
  })
