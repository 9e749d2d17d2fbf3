-- ===== src/Logging/LogRequestHandler.antt =====
-- `LogRequestHandler` (src/logging/log-request-handler.cc): the queue to which a request goes, and
-- what its sender is told. With it, the part of `ClientQueueProcessor` that the handler drives.
pub mod Routes
use residue.Core.Client.{Client}
use residue.Core.Configuration.{Configuration, unmanaged_client_id}
use residue.Core.Registry.{Registry}
use residue.Core.Request.{StatusCode}
use residue.Core.RequestHandler.Handle.{RawRequest}
use residue.Logging.LoggingQueue.{LoggingQueue, push}
use residue.Logging.LoggingQueue
use residue.Logging.LogRequest.{LogRequest, is_bulk}
use residue.Logging.Processor.{is_status_ok, pointee}
use residue.Prelude.Map
use residue.Prelude.Map.{Map, is_some}
use residue.Prelude.{
  ◌-◌, Bool, true, false, not, ◌&&◌, ◌||◌, Option, none, some, [], ◌∷◌, ltb, if◌then◌else◌, length,
  Text, text_eq,
}

-- `ClientQueueProcessor`, as the handler sees it.
pub record QueueProcessor : Type 0 where
  pub client_id : Text
  pub enabled : Bool
  pub stopped : Bool
  pub queue : LoggingQueue RawRequest

abbrev pub construct : Text → QueueProcessor
construct client_id = record {
  client_id = client_id;
  enabled = true;
  stopped = true;
  queue = LoggingQueue.initial;
}

-- `start`: a worker is started for a processor that has none.
unfoldable pub start : QueueProcessor → QueueProcessor
start p = if p.stopped then record p { stopped = false } else p

unfoldable pub disable : QueueProcessor → QueueProcessor
disable p = record p { enabled = false }

-- `ClientQueueProcessor::handle`.
unfoldable pub accept : RawRequest → QueueProcessor → QueueProcessor
unfolding push
accept raw p = if p.enabled then record p { queue = push p.queue raw } else p

-- `m_queueProcessor`.
abbrev pub Processors : Type 0
Processors = Map QueueProcessor

-- The function `add` of `addMissingClientProcessors`.
unfoldable pub add : Processors → Text → Processors
add ps client_id =
    if is_some (Map.find ps client_id) then ps else Map.assign ps client_id (construct client_id)

unfoldable pub add_all : Processors → Map (Text × Text) → Processors
unfolding add
add_all ps [] = ps
add_all ps ((client_id, key) ∷ keys) = add_all (add ps client_id) keys

unfoldable pub start_all : Processors → Processors
unfolding start
start_all [] = []
start_all ((id, p) ∷ ps) = (id, start p) ∷ start_all ps

-- The clients that the configuration has no more get no new requests.
unfoldable pub disable_removed : Map (Text × Text) → Processors → Processors
unfolding disable
disable_removed keys [] = []
disable_removed keys ((id, p) ∷ ps) =
    let rest = disable_removed keys ps in
    if text_eq id unmanaged_client_id || is_some (Map.find keys id)
    then (id, p) ∷ rest
    else (id, disable p) ∷ rest

unfoldable pub add_missing_client_processors : Configuration → Processors → Processors
unfolding add add_all start_all disable_removed
add_missing_client_processors conf ps =
    let keys = conf.managed_clients_keys in
    let started = start_all (add_all (add ps unmanaged_client_id) keys) in
    if ltb (length keys) (length started - 1) then disable_removed keys started else started

-- `Response::StatusCode`, as far as this handler answers with it.
pub data Answer : Type 0 where
  sent_ok sent_bad_request sent_invalid_client : Answer

-- The queue that a client's requests go to.
unfoldable pub route : Client → Text
route c = if not c.is_managed then unmanaged_client_id else c.id

-- `find(id)->second->handle(raw)`; without an entry the program has no defined behaviour.
abbrev pub hand_over : RawRequest → Text → Processors → Option Processors
hand_over raw id ps = elim (Map.find ps id) [
  | none ↦ none
  | some p ↦ some (Map.modify ps id (accept raw))
]

-- `handle`, behind the `RequestHandler::handleWithCopy` that fills the request.
unfoldable pub handle :
    Registry → RawRequest → LogRequest → Processors → Option (Processors × Answer)
unfolding route accept
handle registry raw request ps =
    if (not request.base.is_valid && not (is_bulk request))
      || not (is_status_ok request.base.status_code)
    then some (ps, sent_bad_request)
    else elim (pointee registry 0 request.base.client) [
      | none ↦ some (ps, sent_invalid_client)
      | some c ↦ elim (hand_over raw (route c) ps) [ none ↦ none | some ps' ↦ some (ps', sent_ok) ]
    ]
