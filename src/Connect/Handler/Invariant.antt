-- ===== src/Connect/Handler/Invariant.antt =====
-- The registry before and after a request of src/connect/connection-request-handler.cc.
use residue.Prelude.Map.{map_option}
use residue.Core.Client.{Client}
use residue.Core.Configuration.{Configuration}
use residue.Core.Registry.{Registry, client_exists, find_client, add_client, update_client}
use residue.Core.Registry.Clients.{
  IsWellFormed, add_client-IsWellFormed, update_client-IsWellFormed, find_client-add_client,
}
use residue.Connect.Request.{ConnectionRequest}
use residue.Connect.Operations.{
  store, rekey, reconnect, connect_new, new_client, added, acknowledged_client, touched_client,
}
use residue.Connect.Outcome.{Env, Session}
use residue.Connect.Lookup.{store-IsWellFormed, find_client-refresh, find-store}
use residue.Connect.Handler.{handle}
use residue.Connect.Handler.Leaves.{handle_leaves}
use residue.Prelude.{
  ◌≡◌, refl, sym, ◌∙◌, subst, inl, inr, Bool, true, false, not, ◌||◌, some, arith, if◌then◌else◌,
  Bool-cases, Text, text_eq, text_eq_iff,
}

module _ (env : Env) (conf : Configuration) where
  added-registry :
      (session : Session) (c : Client) (p : Registry × Bool)
      → (added env conf session c p).registry ≡ p.0
  added-registry session c (q, true) = refl
  added-registry session c (q, false) = refl

  pub connect_new-registry :
      (registry : Registry) (session : Session) (r : ConnectionRequest) (managed : Bool)
      → (connect_new env conf registry session r managed).registry
        ≡ (add_client registry (new_client env conf r managed)).0
  unfolding connect_new
  connect_new-registry registry session r managed =
      added-registry session (new_client env conf r managed) _

  rekey_id : (r : ConnectionRequest) (c : Client) → (rekey env conf r c).id ≡ c.id
  unfolding rekey
  rekey_id r c = ground arith

  -- No connection request stores a client twice or under another id.
  pub handle-IsWellFormed :
      (registry : Registry) (session : Session) (request : ConnectionRequest)
      → IsWellFormed registry.clients
      → IsWellFormed (handle env conf registry session request).registry.clients
  handle-IsWellFormed registry session request w =
      handle_leaves (λ o. IsWellFormed o.registry.clients)
        (record {
          refused = λ status text. w;
          ignored = w;
          reconnected = λ r c k found.
              unfold reconnect store in
              store-IsWellFormed env conf registry r.client_id (rekey env conf r) (rekey_id r) w;
          connected = λ r managed k.
              subst (λ q. IsWellFormed q.clients)
                (sym (connect_new-registry registry session r managed))
                (add_client-IsWellFormed registry _ w);
          not_again = λ c text. w;
          acknowledged = λ c k found may.
              update_client-IsWellFormed _ _
                (store-IsWellFormed env conf registry request.client_id _ (λ d. refl) w);
          missing = w;
          untouched = λ c text found. w;
          touched = λ c k found ack alive.
              update_client-IsWellFormed _ _
                (store-IsWellFormed env conf registry request.client_id _ (λ d. refl) w);
        })
        w

  -- What no connection request changes of a client.
  pub record Evolves (c d : Client) : Type 0 where
    pub id : d.id ≡ c.id
    pub token : d.token ≡ c.token
    pub rsa_public_key : d.rsa_public_key ≡ c.rsa_public_key
    pub is_managed : d.is_managed ≡ c.is_managed
    pub acknowledged : (not c.acknowledged || d.acknowledged) ≡ true

  abbrev Survives : Registry → Registry → Type 0
  Survives before after =
      (j : Text) (c : Client)
      → find_client before j ≡ some c
      → (d : Client) × (find_client after j ≡ some d) × Evolves c d

  Evolves-refl : (c : Client) → Evolves c c
  Evolves-refl c = record {
    id = refl;
    token = refl;
    rsa_public_key = refl;
    is_managed = refl;
    acknowledged = ground arith;
  }

  changed :
      (before after : Registry) (id : Text) (f : Client → Client)
      → ((c : Client) → Evolves c (f c))
      → ((j : Text)
          → find_client after j
            ≡ (if text_eq id j then map_option f (find_client before j) else find_client before j))
      → Survives before after
  changed before after id f good h j c e = elim (Bool-cases (text_eq id j)) [
    | inl y ↦ (f c, h j ∙ rw (y, e), good c)
    | inr n ↦ (c, h j ∙ rw (n, e), Evolves-refl c)
  ]

  rekey-Evolves : (r : ConnectionRequest) (c : Client) → Evolves c (rekey env conf r c)
  unfolding rekey
  rekey-Evolves r c = ground arith

  added-Survives : (registry : Registry) (n : Client) → Survives registry (add_client registry n).0
  unfolding client_exists find_client
  added-Survives registry n j c e = (
    c,
    (find_client-add_client registry n j).1 ∙ ground (arith, e, text_eq_iff n.id j),
    Evolves-refl c,
  )

  all-Survives :
      (registry : Registry) (session : Session) (request : ConnectionRequest)
      → IsWellFormed registry.clients
      → Survives registry (handle env conf registry session request).registry
  all-Survives registry session request w =
      handle_leaves (λ o. Survives registry o.registry)
        (record {
          refused = λ status text. same;
          ignored = same;
          reconnected = λ r c k found.
              unfold reconnect in
              changed registry _ r.client_id (rekey env conf r) (rekey-Evolves r)
                (unfold store in find-store env conf registry r.client_id (rekey env conf r));
          connected = λ r managed k.
              subst (Survives registry) (sym (connect_new-registry registry session r managed))
                (added-Survives registry (new_client env conf r managed));
          not_again = λ c text. same;
          acknowledged = λ c k found may.
              refreshed (acknowledged_client env conf)
                (λ d. record {
                  id = refl;
                  token = refl;
                  rsa_public_key = refl;
                  is_managed = refl;
                  acknowledged = ground arith;
                })
                c found;
          missing = same;
          untouched = λ c text found. same;
          touched = λ c k found ack alive.
              refreshed (touched_client env conf)
                (λ d. record {
                  id = refl;
                  token = refl;
                  rsa_public_key = refl;
                  is_managed = refl;
                  acknowledged = ground arith;
                })
                c found;
        })
        w
    where
      same : Survives registry registry
      same j c e = (c, e, Evolves-refl c)

      refreshed :
          (f : Client → Client)
          → ((d : Client) → Evolves d (f d))
          → (c : Client) → find_client registry request.client_id ≡ some c
          → Survives registry (update_client (store env conf registry request.client_id f) (f c)).0
      refreshed f good c found =
          changed registry _ request.client_id f good
            (find_client-refresh env conf registry request.client_id c f (λ d. (good d).id) w found)

  -- A connection request removes no client, whoever sends it: each one is found afterwards with the
  -- token, the public key and the kind that it had, and acknowledged if it was.
  pub handle-Survives :
      (registry : Registry) (session : Session) (request : ConnectionRequest) (j : Text)
      (c : Client)
      → IsWellFormed registry.clients
      → find_client registry j ≡ some c
      → (d : Client) × (find_client (handle env conf registry session request).registry j ≡ some d)
        × Evolves c d
  handle-Survives registry session request j c w found =
      all-Survives registry session request w j c found
