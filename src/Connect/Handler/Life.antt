-- ===== src/Connect/Handler/Life.antt =====
-- `touch` and `connect` (src/connect/connection-request-handler.cc), for the client that sends them.
use residue.Core.Client.{Client, is_alive, construct}
use residue.Core.Configuration.{Configuration}
use residue.Core.Registry.{Registry, client_exists, find_client}
use residue.Core.Registry.Clients.{IsWellFormed, find_client-add_client}
use residue.Connect.Request.{ConnectionRequest}
use residue.Connect.Operations.{new_client, pick_id, on_connect, on_touch, touched_client}
use residue.Connect.Outcome.{Env, Session}
use residue.Connect.Lookup.{find_client-store}
use residue.Connect.Handler.Invariant.{connect_new-registry}
use residue.Prelude.{
  ℕ, zero, suc, ◌+◌, ◌≤◌, ◌≡◌, refl, ap, ◌∙◌, inl, inr, Bool, false, ◌&&◌, none, some, arith,
  if◌then◌else◌, Bool-cases, Option-cases, Text, text_eq,
}

module _ (env : Env) (conf : Configuration) (registry : Registry) (session : Session) where
  -- A client that is acknowledged and alive.
  abbrev pub may_touch : Client → Bool
  may_touch c = c.acknowledged && is_alive c env.now 0

  -- TOUCH gives an acknowledged living client a full life from now on, and leaves its other fields
  -- and all other clients as they are; of a client that is not acknowledged or has died, and of an
  -- unknown one, it changes nothing.
  pub on_touch_lem :
      (r : ConnectionRequest) (j : Text)
      → IsWellFormed registry.clients
      → find_client (on_touch env conf registry session r).registry j
        ≡ elim (find_client registry r.client_id) [
          | none ↦ find_client registry j
          | some c ↦
              if may_touch c && text_eq r.client_id j
              then some (record c { age = conf.client_age; date_created = env.now })
              else find_client registry j
        ]
  unfolding on_touch
  on_touch_lem r j w = elim (Option-cases (find_client registry r.client_id)) [
    | inl e ↦ rw (e, on_touch)
    | inr (c, e) ↦
        rw (e, on_touch)
          (ground (
            arith,
            (find_client-store env conf registry r.client_id c (touched_client env conf) (λ d. refl)
                w e j).0,
          ))
  ]

  -- The ids that `pick_id` looks at, in order.
  abbrev pub candidate : Text → ℕ → ℕ → Text
  candidate id draw zero = id
  candidate id draw (suc k) = env.random_id (draw + k)

  candidate-suc :
      (id : Text) (draw k : ℕ)
      → candidate id draw (suc k) ≡ candidate (env.random_id draw) (suc draw) k
  candidate-suc id draw zero = ap env.random_id (omega arith)
  candidate-suc id draw (suc k) = ap env.random_id (omega arith)

  -- One of them that no client has is enough.
  pick_id_fresh :
      (left draw : ℕ) (id : Text) (k : ℕ)
      → k ≤ left
      → client_exists registry (candidate id draw k) ≡ false
      → client_exists registry (pick_id env conf registry left draw id) ≡ false
  unfolding pick_id
  pick_id_fresh zero draw id zero h free = free
  pick_id_fresh zero draw id (suc k) h free = absurd (omega arith)
  pick_id_fresh (suc left) draw id zero h free = rw free free
  pick_id_fresh (suc left) draw id (suc k) h free = elim (Bool-cases (client_exists registry id)) [
    | inl y ↦
        rw (y, pick_id)
          (pick_id_fresh left (suc draw) (env.random_id draw) k (omega arith)
            (rw (candidate-suc id draw k) at free))
    | inr n ↦ rw (n, pick_id) n
  ]

  abbrev picked : Text → Text
  picked id = pick_id env conf registry 100 1 id

  -- A client with no id of its own that connects is stored, not acknowledged, alive for the time of
  -- an unacknowledged client, under an id that nobody had, and no other client is touched: provided
  -- that its first id or one of the hundred random ones after it is free.
  pub on_connect_new :
      (r : ConnectionRequest) (k : ℕ)
      → k ≤ 100
      → client_exists registry (candidate r.client_id 1 k) ≡ false
      → let id = picked r.client_id in
        let o = on_connect env conf registry session r false in
        (client_exists registry id ≡ false)
        × ((j : Text)
            → find_client o.registry j ≡ (
                if text_eq id j
                then some (new_client env conf (record r { client_id = id }) false)
                else find_client registry j))
  unfolding on_connect construct
  on_connect_new r k h free =
      let fresh = pick_id_fresh 100 1 r.client_id k h free in
      let r' = record r { client_id = picked r.client_id } in
      (
        fresh,
        λ j.
            ap (λ q. find_client q j) (connect_new-registry env conf registry session r' false)
            ∙ (find_client-add_client registry (new_client env conf r' false) j).1
            ∙ rw fresh,
      )
