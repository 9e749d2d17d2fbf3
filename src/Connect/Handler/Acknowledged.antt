-- ===== src/Connect/Handler/Acknowledged.antt =====
-- How a client comes to be acknowledged by src/connect/connection-request-handler.cc.
use residue.Prelude.Map.{map_option}
use residue.Core.Client.{construct, Client}
use residue.Core.Configuration.{Configuration}
use residue.Core.Registry.{Registry, find_client, add_client, update_client}
use residue.Core.Registry.Clients.{IsWellFormed, find_client-add_client}
use residue.Connect.Request.{ConnectionRequest, acknowledge}
use residue.Connect.Operations.{
  store, rekey, reconnect, new_client, acknowledged_client, touched_client,
}
use residue.Connect.Outcome.{Env, Session}
use residue.Connect.Lookup.{find_client-refresh, find_client-store, find-store}
use residue.Connect.Handler.{handle}
use residue.Connect.Handler.Invariant.{connect_new-registry}
use residue.Connect.Handler.Leaves.{handle_leaves}
use residue.Prelude.{
  ◌≡◌, refl, sym, subst, ◌⊎◌, inl, inr, Bool, true, false, some, arith, if◌then◌else◌, Bool-cases,
  Option-cases, Text, text_eq, text_eq_iff,
}

module _ (env : Env) (conf : Configuration) where
  -- A client that is acknowledged afterwards was acknowledged before, or is the one that the
  -- request names by ACKNOWLEDGE.
  abbrev Explained : Registry → ConnectionRequest → Registry → Type 0
  Explained before request after =
      (j : Text) (d : Client)
      → find_client after j ≡ some d
      → d.acknowledged ≡ true
      → ((request.kind ≡ acknowledge) × (request.client_id ≡ j))
        ⊎ ((c : Client) × (find_client before j ≡ some c) × (c.acknowledged ≡ true))

  changed :
      (before after : Registry) (request : ConnectionRequest) (id : Text) (f : Client → Client)
      → ((c : Client) → (f c).acknowledged ≡ c.acknowledged)
      → ((j : Text)
          → find_client after j
            ≡ (if text_eq id j then map_option f (find_client before j) else find_client before j))
      → Explained before request after
  changed before after request id f same h j d e ack = elim (Option-cases (find_client before j)) [
    | inl none_there ↦ absurd (ground (arith, h j))
    | inr (c, there) ↦ inr (c, there, ground (arith, h j, same c))
  ]

  rekey_acknowledged :
      (r : ConnectionRequest) (c : Client) → (rekey env conf r c).acknowledged ≡ c.acknowledged
  unfolding rekey
  rekey_acknowledged r c = ground arith

  added-Explained :
      (registry : Registry) (request : ConnectionRequest) (n : Client)
      → n.acknowledged ≡ false
      → Explained registry request (add_client registry n).0
  added-Explained registry request n fresh j d e ack =
      elim (Option-cases (find_client registry j)) [
        | inl none_there ↦ absurd (ground (arith, (find_client-add_client registry n j).1))
        | inr (c, there) ↦ inr (c, there, ground (arith, (find_client-add_client registry n j).1))
      ]

  new_client_acknowledged :
      (r : ConnectionRequest) (managed : Bool)
      → (new_client env conf r managed).acknowledged ≡ false
  unfolding construct
  new_client_acknowledged r managed = refl

  all-Explained :
      (registry : Registry) (session : Session) (request : ConnectionRequest)
      → IsWellFormed registry.clients
      → Explained registry request (handle env conf registry session request).registry
  all-Explained registry session request w =
      handle_leaves (λ o. Explained registry request o.registry)
        (record {
          refused = λ status text. same;
          ignored = same;
          reconnected = λ r c k found.
              unfold reconnect in
              changed registry _ request r.client_id (rekey env conf r) (rekey_acknowledged r)
                (unfold store in find-store env conf registry r.client_id (rekey env conf r));
          connected = λ r managed k.
              subst (Explained registry request)
                (sym (connect_new-registry env conf registry session r managed))
                (added-Explained registry request (new_client env conf r managed)
                  (new_client_acknowledged r managed));
          not_again = λ c text. same;
          acknowledged = λ c k found may. named c k found;
          missing = same;
          untouched = λ c text found. same;
          touched = λ c k found ack alive.
              changed registry _ request request.client_id (touched_client env conf) (λ d. refl)
                (find_client-refresh env conf registry request.client_id c (touched_client env conf)
                  (λ d. refl) w found);
        })
        w
    where
      same : Explained registry request registry
      same j d e ack = inr (d, e, ack)

      named :
          (c : Client)
          → request.kind ≡ acknowledge
          → find_client registry request.client_id ≡ some c
          → Explained registry request
              (update_client
                (store env conf registry request.client_id (acknowledged_client env conf))
                (acknowledged_client env conf c)).0
      named c k found j d e ack =
          let at =
            (find_client-store env conf registry request.client_id c (acknowledged_client env conf)
              (λ d. refl) w found j).0 in
          elim (Bool-cases (text_eq request.client_id j)) [
            | inl y ↦ inl (k, (text_eq_iff request.client_id j).0 y)
            | inr n ↦ inr (d, ground (arith, at, n), ack)
          ]

  -- A client is acknowledged by an ACKNOWLEDGE request with its id and by nothing else: one that is
  -- acknowledged after a request either is the one that the request is an ACKNOWLEDGE of, or was in
  -- the registry and acknowledged before.
  pub handle-Explained :
      (registry : Registry) (session : Session) (request : ConnectionRequest) (j : Text)
      (d : Client)
      → IsWellFormed registry.clients
      → find_client (handle env conf registry session request).registry j ≡ some d
      → d.acknowledged ≡ true
      → ((request.kind ≡ acknowledge) × (request.client_id ≡ j))
        ⊎ ((c : Client) × (find_client registry j ≡ some c) × (c.acknowledged ≡ true))
  handle-Explained registry session request j d w found ack =
      all-Explained registry session request w j d found ack
