-- ===== src/Connect/Handler.antt =====
-- `ConnectionRequestHandler::handle` (src/connect/connection-request-handler.cc): the checks on a
-- connection request, and the choice of the operation.
pub mod Cases
pub mod Leaves
pub mod Invariant
pub mod Life
pub mod Secrets
pub mod Acknowledged
use residue.Prelude.Map
use residue.Core.Configuration.{Configuration, has_flag, key_size}
use residue.Core.Configuration.Flag
use residue.Core.Registry.{Registry}
use residue.Core.Request.{status_ok, bad_request}
use residue.Connect.Request.{
  ConnectionRequest, connect, acknowledge, touch, is_connect, is_key_size,
}
use residue.Connect.Operations.{on_connect, on_acknowledge, on_touch}
use residue.Connect.Outcome.{Env, Session, plain, nothing, Outcome, error_response, respond_err}
use residue.Prelude.{Bool, not, ◌&&◌, none, some, if◌then◌else◌, codes, is_empty}

module _ (env : Env) (conf : Configuration) where
  -- The `switch`.
  unfoldable pub dispatch : Registry → Session → ConnectionRequest → Bool → Outcome
  unfolding on_connect on_acknowledge on_touch
  dispatch registry session r managed_client = elim r.kind [
    | connect ↦ on_connect env conf registry session r managed_client
    | acknowledge ↦ on_acknowledge env conf registry session r
    | touch ↦ on_touch env conf registry session r
    | _ ↦ record { registry = registry; session = session; written = nothing }
  ]

  -- The checks of a CONNECT request: the public key of a managed client, or that others may come.
  unfoldable pub authorise : Registry → Session → ConnectionRequest → Bool → Outcome
  unfolding dispatch
  authorise registry session r managed_client =
      if is_connect r.kind && managed_client
      then (elim (Map.find conf.managed_clients_keys r.client_id) [
        | none ↦ respond_err registry session (codes "Client is unknown")
        | some (file, contents) ↦
            dispatch registry session (record r { rsa_public_key = contents }) managed_client
      ])
      else if is_connect r.kind
          && not managed_client
          && not (has_flag conf Flag.allow_unmanaged_clients)
      then respond_err registry session (codes "Unmanaged clients are not allowed by this server")
      else dispatch registry session r managed_client

  -- A key size that the request does not give, or gives wrongly, is the configuration's.
  unfoldable pub with_key_size : ConnectionRequest → ConnectionRequest
  with_key_size request =
      if is_key_size request.key_size
      then request
      else record request { key_size = key_size conf request.client_id }

  -- A client that connects with no id gets a random one.
  unfoldable pub with_id : ConnectionRequest → ConnectionRequest
  with_id request =
      if is_connect request.kind && is_empty request.client_id
      then record request { client_id = env.random_id 0 }
      else request

  -- `handle`, behind the `RequestHandler::handle` that fills the request.
  unfoldable pub handle : Registry → Session → ConnectionRequest → Outcome
  unfolding authorise with_key_size with_id
  handle registry session request =
      let named = with_id (with_key_size request) in
      elim (request.base.status_code) [
        | bad_request ↦ record {
          registry = registry;
          session = session;
          written = plain (error_response bad_request request.base.error);
        }
        | status_ok ↦
            if not named.base.is_valid
            then respond_err registry session
                (codes "Invalid connection request. Are you sending it to correct port?")
            else authorise registry session named (not (is_empty request.client_id))
      ]
