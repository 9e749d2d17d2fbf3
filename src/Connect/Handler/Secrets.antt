-- ===== src/Connect/Handler/Secrets.antt =====
-- Where the keys of clients go in the responses of
-- src/connect/connection-request-handler.cc.
use residue.Core.Client.{Client, construct}
use residue.Core.Configuration.{Configuration}
use residue.Core.Registry.{Registry, find_client, add_client, update_client}
use residue.Core.Registry.Clients.{IsWellFormed, IsKeyed-find, find_client-add_client}
use residue.Connect.Request.{ConnectionRequest}
use residue.Connect.Operations.{
  store, rekey, reconnect, connect_new, new_client, added, acknowledged_client, touched_client,
}
use residue.Connect.Outcome.{
  Env, Session, Response, Written, plain, under_rsa, under_aes, standard, nothing, client_response,
}
use residue.Connect.Lookup.{find_client-store, find-store}
use residue.Connect.Handler.{handle}
use residue.Connect.Handler.Leaves.{handle_leaves}
use residue.Prelude.{
  ◌≡◌, refl, sym, ◌∙◌, ◌⊎◌, inl, inr, Bool, true, false, some, [], arith, Text, text_eq_iff,
  text_eq_refl,
}

-- The response tells no key and no token.
abbrev pub IsBare : Response → Type 0
IsBare r = (r.key ≡ []) × (r.client_token ≡ [])

-- The response tells no more than the key of one client of the registry, to that client: what it
-- goes out under is the client's own public key or its own AES key.
abbrev pub IsSealed : Registry → Written → Type 0
IsSealed registry (plain r) = IsBare r
IsSealed registry (under_rsa r public_key) =
    IsBare r
    ⊎ ((c : Client) × (find_client registry r.client_id ≡ some c)
        × (r.key ≡ c.key)
        × (public_key ≡ c.rsa_public_key))
IsSealed registry (under_aes r key) =
    IsBare r
    ⊎ ((c : Client) × (find_client registry r.client_id ≡ some c) × (r.key ≡ c.key) × (key ≡ c.key))
IsSealed registry (standard _) = Unit
IsSealed registry nothing = Unit

module _ (env : Env) (conf : Configuration) (registry : Registry) (session : Session) where
  reconnect-IsSealed :
      (r : ConnectionRequest) (c : Client)
      → find_client registry r.client_id ≡ some c
      → let o = reconnect env conf registry session r c in IsSealed o.registry o.written
  unfolding reconnect construct store
  reconnect-IsSealed r c found = inr (
    rekey env conf r c,
    find-store env conf registry r.client_id (rekey env conf r) r.client_id
        ∙ rw (text_eq_refl r.client_id, found),
    refl,
    unfold rekey in ground arith,
  )

  added_pair :
      (c : Client) (p : Registry × Bool)
      → (p.1 ≡ true → find_client p.0 c.id ≡ some c)
      → let o = added env conf session c p in IsSealed o.registry o.written
  added_pair c (q, true) there = inr (c, there refl, refl, refl)
  added_pair c (q, false) there = inl (refl, refl)

  connect_new-IsSealed :
      (r : ConnectionRequest) (managed : Bool)
      → let o = connect_new env conf registry session r managed in IsSealed o.registry o.written
  unfolding connect_new
  connect_new-IsSealed r managed =
      let c = new_client env conf r managed in
      let law = find_client-add_client registry c c.id in
      added_pair c (add_client registry c) λ done. law.1 ∙ rw (sym law.0 ∙ done, text_eq_refl c.id)

  -- A refreshed client is told under its own AES key.
  refreshed-IsSealed :
      (id : Text) (c : Client) (f : Client → Client)
      → ((d : Client) → ((f d).id ≡ d.id) × ((f d).key ≡ d.key))
      → IsWellFormed registry.clients
      → find_client registry id ≡ some c
      → IsSealed
          (update_client (store env conf registry id f) (f c)).0
          (under_aes (client_response (f c) true conf.logging_port) c.key)
  refreshed-IsSealed id c f same w found =
      let own = IsKeyed-find registry.clients id c w.keyed (unfold find_client in found) in
      inr (
        f c,
        (find_client-store env conf registry id c f (λ d. (same d).0) w found (f c).id).0
            ∙ rw ((text_eq_iff id (f c).id).1 (own ∙ sym (same c).0)),
        refl,
        sym (same c).1,
      )

  -- No request makes the server tell a client's key or token in the clear: a response with a key
  -- goes out under the RSA or AES key of the very client that the registry then has under the id in
  -- the response, and the key in it is that client's.
  pub handle-IsSealed :
      (request : ConnectionRequest)
      → IsWellFormed registry.clients
      → let o = handle env conf registry session request in IsSealed o.registry o.written
  handle-IsSealed request w =
      handle_leaves (λ o. IsSealed o.registry o.written)
        (record {
          refused = λ status text. (refl, refl);
          ignored = tt;
          reconnected = λ r c k found. reconnect-IsSealed r c found;
          connected = λ r managed k. connect_new-IsSealed r managed;
          not_again = λ c text. inl (refl, refl);
          acknowledged = λ c k found may.
              refreshed-IsSealed request.client_id c (acknowledged_client env conf)
                (λ d. (refl, refl)) w found;
          missing = tt;
          untouched = λ c text found. inl (refl, refl);
          touched = λ c k found ack alive.
              refreshed-IsSealed request.client_id c (touched_client env conf) (λ d. (refl, refl)) w
                found;
        })
        w
