-- ===== src/Logging/Processor.antt =====
-- `ClientQueueProcessor` (src/logging/client-queue-processor.cc, client-queue-processor.h): which
-- requests of a queue are dispatched to the loggers.
pub mod Bulk
pub mod Decrypted
pub mod Origin
use residue.Core.Client.{Client, is_alive}
use residue.Core.Configuration.{
  Configuration, has_flag, is_managed_logger, is_blacklisted, residue_logger_id,
  update_unmanaged_logger_user,
}
use residue.Core.Configuration.Flag
use residue.Core.JsonDoc.{JsonDoc}
use residue.Core.Registry.{Registry, find_client}
use residue.Core.Request.{Request, StatusCode, status_ok, bad_request}
use residue.Core.RequestHandler.Handle.{RawRequest}
use residue.Core.RequestHandler.Handle
use residue.Crypto.{Library}
use residue.Connect.Outcome.{Session}
use residue.Logging.LogRequest.{LogRequest, Levels, is_bulk}
use residue.Logging.LogRequest
use residue.Prelude.{
  ℕ, suc, ◌+◌, Bool, true, false, not, ◌&&◌, ◌||◌, Option, none, some, List, [], ◌∷◌, ◌++◌, ◌==◌,
  if◌then◌else◌, Text, codes, text_eq,
}

-- What processing changes: the users of unmanaged loggers in the configuration, the session of the
-- request, if it has one, and what the loggers have been given.
pub record State : Type 0 where
  pub conf : Configuration
  pub session : Option Session
  pub dispatched : List LogRequest

abbrev pub is_status_ok : StatusCode → Bool
is_status_ok s = elim s [ status_ok ↦ true | bad_request ↦ false ]

-- `isRequestAllowed`, for the client that the request's pointer leads to.
unfoldable pub is_request_allowed : Configuration → LogRequest → Option Client → Bool
is_request_allowed conf r none = false
is_request_allowed conf r (some client) =
    (has_flag conf Flag.allow_unmanaged_loggers || is_managed_logger conf r.logger_id)
    && not (text_eq r.logger_id residue_logger_id)
    && not (is_blacklisted conf r.logger_id)
    && not (
        not client.is_managed
        && is_managed_logger conf r.logger_id
        && not (text_eq r.logger_id (codes "default")))

-- The session learns its client.
abbrev pub update_session : Text → Option Session → Option Session
update_session id none = none
update_session id (some s) =
    some (record s { client = elim s.client [ none ↦ some id | some c ↦ some c ] })

-- `dispatch`: the writer of the logging library gets the request.
unfoldable pub dispatch : LogRequest → State → State
dispatch r s = record s { dispatched = s.dispatched ++ r ∷ [] }

-- The user of an unmanaged logger, from a managed client that uses it.
unfoldable pub note_logger_user : Configuration → LogRequest → Configuration
note_logger_user conf r =
    if has_flag conf Flag.allow_unmanaged_loggers && not (is_managed_logger conf r.logger_id)
    then update_unmanaged_logger_user conf r.logger_id r.client_id
    else conf

-- The request with the client that it belongs to.
abbrev pub stamp : Client → LogRequest → LogRequest
stamp client r = record r {
  client_id = client.id;
  base = record (r.base) { client = some client.id };
}

abbrev pub with_client_id : Option Client → LogRequest → LogRequest
with_client_id none request = request
with_client_id (some c) request = record request { client_id = c.id }

module _ (registry : Registry) (now : ℕ) where
  -- The client behind a pointer into the registry.
  abbrev pub pointee : Option Text → Option Client
  pointee none = none
  pointee (some id) = find_client registry id

  -- `processRequest` with the client found.
  unfoldable pub process_for : Client → Bool → LogRequest → State → Bool × State
  unfolding is_request_allowed dispatch note_logger_user
  process_for client bypass_checks request s =
      if not bypass_checks && not (is_alive client now request.base.date_received)
      then (false, s)
      else (let r = stamp client request in
          let s1 = record s {
            session = update_session client.id s.session;
            conf =
                if not bypass_checks && client.is_managed
                then note_logger_user s.conf r
                else s.conf;
          } in
          if not r.base.is_valid
          then (false, s1)
          else if not bypass_checks && not (is_request_allowed s1.conf r (some client))
          then (false, s1)
          else (true, dispatch r s1))

  abbrev pub for_client : Option Client → Bool → LogRequest → State → Bool × State
  for_client none bypass_checks request s = (false, s)
  for_client (some client) bypass_checks request s = process_for client bypass_checks request s

  -- `processRequest`: `client_ref` is `none` for the null pointer, and else what it points to.
  unfoldable pub process_request : LogRequest → Option (Option Text) → Bool → State → Bool × State
  unfolding process_for
  process_request request none force_check s =
      for_client (pointee request.base.client) false request s
  process_request request (some none) force_check s =
      for_client (pointee request.base.client) false request s
  process_request request (some (some id)) force_check s =
      for_client (find_client registry id) (not force_check) request s

  module _ (levels : Levels) (parse : Text → JsonDoc) where
    -- What a new `LogRequest` holds before anything is read into it.
    module _ (fresh : LogRequest) where
      -- An item of a bulk, read.
      unfoldable pub bulk_item : Configuration → LogRequest → Text → LogRequest
      unfolding LogRequest.deserialize
      bulk_item conf request text = LogRequest.deserialize levels conf (parse text) (record fresh {
        base = record (fresh.base) { date_received = request.base.date_received };
      })

      -- The item with what it takes over from the bulk.
      abbrev pub inherit : LogRequest → LogRequest → LogRequest
      inherit request item = record item {
        base = record (item.base) {
          ip_addr = request.base.ip_addr;
          session_id = request.base.session_id;
          client = request.base.client;
        };
      }

      -- The loop over the items.
      unfoldable pub process_items : LogRequest → Bool → ℕ → List Text → State → State
      unfolding process_request bulk_item
      process_items request force item_count [] s = s
      process_items request force item_count (text ∷ texts) s =
          let item = bulk_item s.conf request text in
          let (done, s1) =
            process_request (inherit request item) (some request.base.client) force s in
          let after = process_items request (not done) (suc item_count) texts s1 in
          let skipped = process_items request force item_count texts s in
          if item_count == s.conf.max_items_in_bulk
          then s
          else if item.base.is_valid
          then after
          else skipped

      -- A request that is an array of requests.
      unfoldable pub process_bulk : LogRequest → State → State
      unfolding process_items
      process_bulk request s =
          if has_flag s.conf Flag.allow_bulk_log_request
          then process_items request true 0 request.base.json_doc.items s
          else s

      -- A request that is none.
      unfoldable pub process_single : LogRequest → State → State
      unfolding process_request
      process_single request s =
          (process_request (with_client_id (pointee request.base.client) request) none true s).1

      -- A decrypted request.
      unfoldable pub process_decrypted : LogRequest → State → State
      unfolding process_bulk process_single
      process_decrypted request s =
          if (not request.base.is_valid && not (is_bulk request))
            || not (is_status_ok request.base.status_code)
          then s
          else if is_bulk request
          then process_bulk request s
          else process_single request s

      -- A raw request, decrypted and read.
      unfoldable pub read_raw : Library → RawRequest → State → LogRequest
      read_raw lib raw s =
          Handle.handle (LogRequest.request_class levels s.conf parse) lib s.conf registry raw
            (record {
              default_status = bad_request;
              try_server_rsa_key = false;
              try_server_aes_key = false;
              decompress = has_flag s.conf Flag.compression;
            })
            fresh

      -- The body of the loop over the queue, for one raw request.
      unfoldable pub process_raw : Library → RawRequest → State → State
      unfolding process_decrypted read_raw
      process_raw lib raw s = process_decrypted (read_raw lib raw s) s
