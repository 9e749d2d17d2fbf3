-- ===== src/Logging/LogRequestHandler/Routes.antt =====
-- The queues of `LogRequestHandler` (src/logging/log-request-handler.cc), and the way of a request to
-- one of them.
use residue.Core.Client.{Client}
use residue.Core.Configuration.{Configuration, unmanaged_client_id, value_or}
use residue.Core.Registry.{Registry}
use residue.Logging.LogRequest.{LogRequest}
use residue.Prelude.Map
use residue.Prelude.Map.{Map, is_some, map_option, find-assign}
use residue.Logging.LogRequestHandler.{
  QueueProcessor, Processors, construct, start, add, add_all, start_all, disable_removed,
  add_missing_client_processors,
}
use residue.Prelude.{
  ◌-◌, ◌≡◌, refl, ap, ◌∙◌, Bool, true, false, ◌||◌, Option, some, [], ◌∷◌, arith, ltb,
  if◌then◌else◌, length, Text, text_eq, text_eq_iff, if_cases,
}

find-add :
    (ps : Processors) (k id : Text)
    → Map.find (add ps k) id
      ≡ (if text_eq k id then some (value_or (Map.find ps id) (construct id)) else Map.find ps id)
unfolding add
find-add ps k id = ground (arith, text_eq_iff k id, find-assign ps k id (construct k))

-- The processor of an id that the handler knows or is told of.
abbrev known : Processors → Bool → Text → Option QueueProcessor
known ps listed id =
    if listed then some (value_or (Map.find ps id) (construct id)) else Map.find ps id

find-add_all :
    (keys : Map (Text × Text)) (ps : Processors) (id : Text)
    → Map.find (add_all ps keys) id ≡ known ps (is_some (Map.find keys id)) id
unfolding add_all Map.find
find-add_all [] ps id = refl
find-add_all ((k, v) ∷ keys) ps id =
    ground (arith, find-add_all keys (add ps k) id, find-add ps k id)

find-start_all :
    (ps : Processors) (id : Text) → Map.find (start_all ps) id ≡ map_option start (Map.find ps id)
unfolding start_all Map.find
find-start_all [] id = refl
find-start_all ((k, p) ∷ ps) id = ground (arith, find-start_all ps id)

find-disable_removed :
    (keys : Map (Text × Text)) (ps : Processors) (id : Text)
    → (text_eq id unmanaged_client_id || is_some (Map.find keys id)) ≡ true
    → Map.find (disable_removed keys ps) id ≡ Map.find ps id
unfolding disable_removed Map.find
find-disable_removed keys [] id h = refl
find-disable_removed keys ((k, p) ∷ ps) id h =
    ground (arith, text_eq_iff k id, find-disable_removed keys ps id h)

start_lem : (p : QueueProcessor) → start p ≡ record p { stopped = false }
unfolding start
start_lem p = ground arith

-- The ids whose requests the configuration wants processed.
abbrev pub listed : Configuration → Text → Bool
listed conf id = text_eq id unmanaged_client_id || is_some (Map.find conf.managed_clients_keys id)

-- Afterwards the queue of the unmanaged clients and that of each managed client of the configuration
-- has a processor at work: the one that was there before, with its requests and as enabled or
-- disabled as it was, or else a new one.
pub find-add_missing :
    (conf : Configuration) (ps : Processors) (id : Text)
    → listed conf id ≡ true
    → Map.find (add_missing_client_processors conf ps) id
      ≡ some (record (value_or (Map.find ps id) (construct id)) { stopped = false })
unfolding add_missing_client_processors
find-add_missing conf ps id h =
    if_cases
      (λ qs.
        Map.find qs id
        ≡ some (record (value_or (Map.find ps id) (construct id)) { stopped = false }))
      (ltb (length keys) (length started - 1)) _ _
      (λ _. find-disable_removed keys started id h ∙ all) (λ _. all)
  where
    keys : Map (Text × Text)
    keys = conf.managed_clients_keys

    started : Processors
    started = start_all (add_all (add ps unmanaged_client_id) keys)

    all :
        Map.find started id
        ≡ some (record (value_or (Map.find ps id) (construct id)) { stopped = false })
    all =
        find-start_all (add_all (add ps unmanaged_client_id) keys) id
        ∙ ap (map_option start) (find-add_all keys (add ps unmanaged_client_id) id)
        ∙ ground (
          arith,
          h,
          find-add ps unmanaged_client_id id,
          text_eq_iff id unmanaged_client_id,
          text_eq_iff unmanaged_client_id id,
          start_lem (value_or (Map.find ps id) (construct id)),
        )
