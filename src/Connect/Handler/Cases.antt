-- ===== src/Connect/Handler/Cases.antt =====
-- A case analysis of `ConnectionRequestHandler::handle`
-- (src/connect/connection-request-handler.cc), by its refusals and its operations.
use residue.Prelude.Map
use residue.Core.Configuration.{Configuration, has_flag}
use residue.Core.Configuration.Flag
use residue.Core.Registry.{Registry}
use residue.Core.Request.{StatusCode, status_ok, bad_request}
use residue.Connect.Request.{
  ConnectionRequest, Kind, unknown, connect, acknowledge, touch, invalid, is_connect, is_key_size,
}
use residue.Connect.Operations.{on_connect, on_acknowledge, on_touch}
use residue.Connect.Outcome.{Env, Session, Outcome, plain, nothing, error_response, respond_err}
use residue.Connect.Handler.{dispatch, authorise, with_key_size, with_id, handle}
use residue.Prelude.{
  if_cases, ◌≡◌, refl, sym, ◌∙◌, ◌⊎◌, inl, inr, Bool, true, false, not, ◌&&◌, none, some, arith,
  Option-cases, Text, codes, is_empty,
}

-- The refusals in the clear, the requests of no known kind, and the three operations. A request
-- that is not a CONNECT keeps its client id on the way.
pub record Closed {ℓ} (env : Env) (conf : Configuration) (registry : Registry) (session : Session)
    (request : ConnectionRequest) (P : Outcome → Type ℓ) : Type ℓ where
  pub refused :
      (status : StatusCode) (text : Text)
      → P (record {
        registry = registry;
        session = session;
        written = plain (error_response status text);
      })
  pub ignored : P (record { registry = registry; session = session; written = nothing })
  pub connected :
      (r : ConnectionRequest) (managed : Bool)
      → request.kind ≡ connect
      → P (on_connect env conf registry session r managed)
  pub acknowledged :
      (r : ConnectionRequest)
      → request.kind ≡ acknowledge
      → r.client_id ≡ request.client_id
      → P (on_acknowledge env conf registry session r)
  pub touched :
      (r : ConnectionRequest)
      → request.kind ≡ touch
      → r.client_id ≡ request.client_id
      → P (on_touch env conf registry session r)

module _ {ℓ} {env : Env} {conf : Configuration} {registry : Registry} {session : Session}
    {request : ConnectionRequest} (P : Outcome → Type ℓ)
    (closed : Closed env conf registry session request P) where
  -- `r` is the request on its way: of the same kind, and of the same id unless it is a CONNECT.
  abbrev OnItsWay : ConnectionRequest → Type 0
  OnItsWay r =
      (r.kind ≡ request.kind)
      × ((is_connect request.kind ≡ true) ⊎ (r.client_id ≡ request.client_id))

  dispatch_cases :
      (r : ConnectionRequest) (managed : Bool)
      → OnItsWay r
      → P (dispatch env conf registry session r managed)
  unfolding dispatch
  dispatch_cases r managed way = go r.kind refl
    where
      same_id :
          (k : Kind) → request.kind ≡ k → is_connect k ≡ false → r.client_id ≡ request.client_id
      same_id k e no_connect = ground arith

      go : (k : Kind) → r.kind ≡ k → P (dispatch env conf registry session r managed)
      go unknown e = rw (e, dispatch) closed.ignored
      go connect e = rw (e, dispatch) (closed.connected r managed (sym way.0 ∙ e))
      go acknowledge e =
          rw (e, dispatch)
            (closed.acknowledged r (sym way.0 ∙ e) (same_id acknowledge (sym way.0 ∙ e) refl))
      go touch e =
          rw (e, dispatch) (closed.touched r (sym way.0 ∙ e) (same_id touch (sym way.0 ∙ e) refl))
      go invalid e = rw (e, dispatch) closed.ignored

  authorise_cases :
      (r : ConnectionRequest) (managed : Bool)
      → OnItsWay r
      → P (authorise env conf registry session r managed)
  unfolding authorise
  authorise_cases r managed way =
      if_cases P (is_connect r.kind && managed) _ _ (λ _. known)
        λ _.
          if_cases P
            (is_connect r.kind && not managed && not (has_flag conf Flag.allow_unmanaged_clients))
            (respond_err registry session
              (codes "Unmanaged clients are not allowed by this server"))
            (dispatch env conf registry session r managed) (λ _. closed.refused bad_request _)
            (λ _. dispatch_cases r managed way)
    where
      known : P (elim (Map.find conf.managed_clients_keys r.client_id) [
        | none ↦ respond_err registry session (codes "Client is unknown")
        | some (file, contents) ↦
            dispatch env conf registry session (record r { rsa_public_key = contents }) managed
      ])
      known = elim (Option-cases (Map.find conf.managed_clients_keys r.client_id)) [
        | inl e ↦ rw e (closed.refused bad_request _)
        | inr (p, e) ↦ rw e (dispatch_cases (record r { rsa_public_key = p.1 }) managed way)
      ]

  with_key_size-OnItsWay : OnItsWay (with_key_size env conf request)
  unfolding with_key_size
  with_key_size-OnItsWay =
      if_cases OnItsWay (is_key_size request.key_size) _ _ (λ _. (refl, inr refl))
        (λ _. (refl, inr refl))

  with_id-OnItsWay : (r : ConnectionRequest) → OnItsWay r → OnItsWay (with_id env conf r)
  unfolding with_id
  with_id-OnItsWay r way =
      if_cases OnItsWay (is_connect r.kind && is_empty r.client_id) _ _
        (λ e. (way.0, inl (ground arith))) (λ _. way)

  pub handle_cases : P (handle env conf registry session request)
  unfolding handle
  handle_cases = go request.base.status_code refl
    where
      go :
          (s : StatusCode)
          → request.base.status_code ≡ s
          → P (handle env conf registry session request)
      go bad_request e = rw (e, handle) (closed.refused bad_request request.base.error)
      go status_ok e =
          rw (e, handle)
            (if_cases P (not (with_id env conf (with_key_size env conf request)).base.is_valid)
              (respond_err registry session
                (codes "Invalid connection request. Are you sending it to correct port?"))
              (authorise env conf registry session
                (with_id env conf (with_key_size env conf request))
                (not (is_empty request.client_id)))
              (λ _. closed.refused bad_request _)
              (λ _.
                authorise_cases (with_id env conf (with_key_size env conf request))
                  (not (is_empty request.client_id))
                  (with_id-OnItsWay (with_key_size env conf request) with_key_size-OnItsWay)))
