-- ===== src/Connect/Lookup.antt =====
-- The clients of the registry by id, after the operations of
-- src/connect/connection-request-handler.cc.
use residue.Prelude.Map
use residue.Prelude.Map.{map_option, is_some}
use residue.Core.Client.{Client}
use residue.Core.Configuration.{Configuration}
use residue.Core.Registry.{Registry, client_exists, find_client, update_client}
use residue.Core.Registry.Clients.{
  IsWellFormed, IsKeyed-find, IsKeyed-modify, find_client-update_client,
}
use residue.Connect.Operations.{store}
use residue.Connect.Outcome.{Env}
use residue.Prelude.{
  ◌≡◌, sym, ap, ◌∙◌, inl, inr, true, some, arith, if◌then◌else◌, Bool-cases, Text, text_eq,
  text_eq_iff, text_eq_refl,
}

module _ (env : Env) (conf : Configuration) where
  pub store-IsWellFormed :
      (registry : Registry) (id : Text) (f : Client → Client)
      → ((c : Client) → (f c).id ≡ c.id)
      → IsWellFormed registry.clients
      → IsWellFormed (store env conf registry id f).clients
  unfolding store
  store-IsWellFormed registry id f same w = record {
    unique = Map.UniqueKeys-modify registry.clients id f w.unique;
    keyed = IsKeyed-modify registry.clients id f same w.keyed;
  }

  pub find-store :
      (registry : Registry) (id : Text) (f : Client → Client) (j : Text)
      → find_client (store env conf registry id f) j
        ≡ (if text_eq id j then map_option f (find_client registry j) else find_client registry j)
  unfolding store find_client
  find-store registry id f j = Map.find-modify registry.clients id j f

  -- A client changed in place and then updated by itself is the changed client.
  pub find_client-store :
      (registry : Registry) (id : Text) (c : Client) (f : Client → Client)
      → ((d : Client) → (f d).id ≡ d.id)
      → IsWellFormed registry.clients
      → find_client registry id ≡ some c
      → (j : Text)
      → (find_client (update_client (store env conf registry id f) (f c)).0 j
          ≡ (if text_eq id j then some (f c) else find_client registry j))
        × ((update_client (store env conf registry id f) (f c)).1 ≡ true)
  unfolding client_exists find_client
  find_client-store registry id c f same w found j =
      let own : (f c).id ≡ id = same c ∙ sym (IsKeyed-find registry.clients id c w.keyed found) in
      let once = find-store registry id f in
      let twice = find_client-update_client (store env conf registry id f) (f c) in
      let here : find_client (store env conf registry id f) id ≡ some (f c) =
        once id ∙ ground (arith, text_eq_refl id, found) in
      (
        elim (Bool-cases (text_eq id j)) [
          | inl y ↦ rw y (
              (twice j).1
              ∙ rw (
                ap (λ k. text_eq k j) own ∙ y,
                ap (find_client (store env conf registry id f)) (sym ((text_eq_iff id j).0 y))
                    ∙ here,
              ))
          | inr n ↦ rw n ((twice j).1 ∙ rw (ap (λ k. text_eq k j) own ∙ n) (once j ∙ rw n))
        ],
        (twice j).0
            ∙ ap (λ k. is_some (find_client (store env conf registry id f) k)) own
            ∙ ap is_some here,
      )

  -- The same, as a change of the registry's function.
  pub find_client-refresh :
      (registry : Registry) (id : Text) (c : Client) (f : Client → Client)
      → ((d : Client) → (f d).id ≡ d.id)
      → IsWellFormed registry.clients
      → find_client registry id ≡ some c
      → (j : Text)
      → find_client (update_client (store env conf registry id f) (f c)).0 j
        ≡ (if text_eq id j then map_option f (find_client registry j) else find_client registry j)
  find_client-refresh registry id c f same w found j =
      (find_client-store registry id c f same w found j).0 ∙ elim (Bool-cases (text_eq id j)) [
        | inl y ↦ rw (y, ← (text_eq_iff id j).0 y, found)
        | inr n ↦ rw n
      ]
