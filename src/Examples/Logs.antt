-- ===== src/Examples/Logs.antt =====
-- The theorems on log requests and their queues, at work.
use residue.Core.Configuration.{member, value_or, unmanaged_client_id}
use residue.Core.JsonDoc
use residue.Core.JsonDoc.{JsonDoc}
use residue.Core.Registry.{find_client}
use residue.Logging.LoggingQueue.{LoggingQueue, initial, size, backlog_empty}
use residue.Logging.LoggingQueue.Fifo.{Event, pushes, works, run, start, whole, to_list, fifo}
use residue.Logging.LoggingQueue.Drain.{drained}
use residue.Logging.LogRequest.{LogRequest}
use residue.Logging.Processor.{State, process_decrypted, process_raw}
use residue.Logging.Processor.Decrypted.{admitted, process_decrypted_lem}
use residue.Logging.Processor.Origin.{IsOwned, process_raw-IsOwned}
use residue.Logging.LogRequestHandler.{construct, add_missing_client_processors}
use residue.Logging.LogRequestHandler.Routes.{find-add_missing}
use residue.Logging.QueuePass.{IntegrityTask, begin_pass, pull_all, end_pass}
use residue.Logging.QueuePass.Loop.{process_list, pull_all_lem}
use residue.Logging.QueuePass.Pausing.{
  paused_of, with_task, IsUnique, pass-paused, end_pass-registry,
}
use residue.Tasks.Task.{Task}
use residue.Tasks.Task
use residue.Prelude.Map
use residue.Prelude.Map.{map_option}
use residue.Examples.Data.{
  bob_there, bob, registry, conf, library, session, levels, log_request, raw, base, no_doc,
}
use residue.Prelude.{
  ℕ, ◌≤◌, max, length, All, ◌≡◌, refl, true, false, not, ◌&&◌, ◌||◌, none, some, List, [], ◌∷◌,
  ◌++◌, arith, ltb, if◌then◌else◌, take, drop, replicate, Text, codes, text_eq, text_eq_refl,
}

-- The items of a bulk, by the loggers that they name.
abbrev parse : Text → JsonDoc
parse s = record {
  status = JsonDoc.parse_ok;
  is_array = false;
  lookup = λ key.
      if text_eq key (codes "logger")
      then JsonDoc.string s
      else if text_eq key (codes "datetime")
      then JsonDoc.number 130000 130000
      else if text_eq key (codes "msg")
      then JsonDoc.string (codes "hello")
      else if text_eq key (codes "_t")
      then JsonDoc.number 128 128
      else JsonDoc.number 4 4;
  items = [];
}

-- Three items, the second for a logger that is black-listed.
abbrev bulk : LogRequest
bulk = record (log_request []) {
  base = record base {
    client = some (codes "bob");
    json_doc = record no_doc {
      is_array = true;
      items = codes "app" ∷ codes "muted" ∷ codes "app" ∷ [];
    };
  };
}

abbrev state : State
state = record { conf = conf; session = some session; dispatched = [] }

process_decrypted_lem_example :
    (process_decrypted registry 130 levels parse (log_request []) bulk state).dispatched
    ≡ [] ++ admitted registry 130 levels parse (log_request []) conf bob bulk
process_decrypted_lem_example =
    process_decrypted_lem registry 130 levels parse (log_request []) bulk (codes "bob") bob state
      refl bob_there

process_raw-IsOwned_example :
    let after =
      process_raw registry 130 levels parse (log_request []) library (raw (codes "bob:1")) state in
    (new : List LogRequest) × (after.dispatched ≡ [] ++ new)
    × All (IsOwned registry) new
    × (length new ≤ max 1 conf.max_items_in_bulk)
process_raw-IsOwned_example =
    process_raw-IsOwned registry 130 levels parse (log_request []) library (raw (codes "bob:1"))
      state

abbrev events : List (Event ℕ)
events = pushes 1 ∷ works ∷ pushes 2 ∷ works ∷ pushes 3 ∷ works ∷ []

fifo_example : whole (run start events) ≡ 1 ∷ 2 ∷ 3 ∷ []
fifo_example = fifo events

drained_example : (run start (events ++ replicate 4 works)).taken ≡ 1 ∷ 2 ∷ 3 ∷ []
drained_example = drained events 4 (omega arith)

find-add_missing_example :
    Map.find (add_missing_client_processors conf []) unmanaged_client_id
    ≡ some (record (value_or (Map.find [] unmanaged_client_id) (construct unmanaged_client_id)) {
      stopped = false;
    })
find-add_missing_example =
    find-add_missing conf [] unmanaged_client_id (rw (text_eq_refl unmanaged_client_id) refl)

-- A queue with two requests to dispatch and one behind them.
abbrev queue : LoggingQueue ℕ
queue = record initial { second = 2 ∷ 1 ∷ []; first = 3 ∷ [] }

pull_all_lem_example :
    (q' : LoggingQueue ℕ) × (pull_all (λ a l. a ∷ l) (size queue) queue []
      ≡ some (q', process_list (λ a l. a ∷ l) (take (size queue) (to_list queue)) []))
    × (to_list q' ≡ drop (size queue) (to_list queue))
    × (size q' ≡ 0)
pull_all_lem_example = pull_all_lem (λ a l. a ∷ l) queue [] (λ e. cc)

abbrev integrity_task : IntegrityTask
integrity_task = record { task = Task.construct 300; paused = codes "alice" ∷ [] }

pass-paused_example :
    let (snap, during) = begin_pass (codes "unmanaged") queue (some integrity_task) in
    let (_, (after, _)) =
      end_pass {A = ℕ} 130
        (codes "unmanaged")
        snap
        initial
        (with_task (Task.construct 60) during)
        registry in
    (member (paused_of during) (codes "alice")
      ≡ ((ltb 0 (size queue) && text_eq (codes "unmanaged") (codes "alice")) || true))
    × (member (paused_of after) (codes "alice") ≡ (
        if ltb 0 (size queue) && text_eq (codes "unmanaged") (codes "alice")
        then not (backlog_empty (initial {A = ℕ}))
        else true))
    × IsUnique (paused_of after)
unfolding text_eq
pass-paused_example =
    pass-paused 130 (codes "unmanaged") (codes "alice") queue initial integrity_task
      (Task.construct 60) registry (refl, tt)

no_such : find_client registry unmanaged_client_id ≡ none
unfolding find_client Map.find text_eq
no_such = refl

end_pass-registry_example :
    (end_pass 130
      (codes "alice")
      (record { total = 2; last_client_integrity_run = 0 })
      queue
      (some integrity_task)
      registry).1.1
    ≡ registry
end_pass-registry_example =
    end_pass-registry 130 (codes "alice") (record { total = 2; last_client_integrity_run = 0 })
      queue (some integrity_task) registry no_such
