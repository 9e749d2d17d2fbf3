-- ===== src/Logging/QueuePass.antt =====
-- `ClientQueueProcessor::processRequestQueue` (src/logging/client-queue-processor.cc) around its
-- loop: how one pass over a queue holds the clean-up of the clients off, and lets it go on.
pub mod Loop
pub mod Pausing
use residue.Core.Configuration.{unmanaged_client_id}
use residue.Core.Registry.{Registry}
use residue.Logging.LoggingQueue.{LoggingQueue, size, backlog_empty, switch_context, pull}
use residue.Tasks.Task.{Task}
use residue.Tasks.ClientIntegrityTask.{PausedClients, pause_client, resume_client, perform_cleanup}
use residue.Prelude.{ℕ, zero, suc, not, ◌&&◌, Option, none, some, ltb, if◌then◌else◌, Text, text_eq}

-- The registry's clean-up task, with the clients that it must leave alone.
pub record IntegrityTask : Type 0 where
  pub task : Task
  pub paused : PausedClients

-- What a pass remembers from its start: the size of the queue, and when the task ran last.
pub record Snapshot : Type 0 where
  pub total : ℕ
  pub last_client_integrity_run : ℕ

abbrev pub last_execution : Option IntegrityTask → ℕ
last_execution none = 0
last_execution (some t) = t.task.last_execution

abbrev pub with_paused :
    (PausedClients → PausedClients) → Option IntegrityTask → Option IntegrityTask
with_paused f none = none
with_paused f (some t) = some (record t { paused = f t.paused })

-- Up to the loop. `none` is a registry with no such task.
unfoldable pub begin_pass {ℓ} :
    {A : Type ℓ} → Text → LoggingQueue A → Option IntegrityTask → Snapshot × Option IntegrityTask
unfolding size
begin_pass client_id q t = (
  record { total = size q; last_client_integrity_run = last_execution t },
  if ltb 0 (size q) then with_paused (pause_client client_id) t else t,
)

-- The loop: as many pulls as the snapshot says, each given to `process`.
unfoldable pub pull_all {ℓ κ} :
    {A : Type ℓ} {S : Type κ} → (A → S → S) → ℕ → LoggingQueue A → S → Option (LoggingQueue A × S)
unfolding pull
pull_all process zero q s = some (q, s)
pull_all process (suc n) q s = elim (pull q) [
  | none ↦ none
  | some (raw, q') ↦ pull_all process n q' (process raw s)
]

-- The clean-up that a pass owes, at the time `now`, to a task that ran meanwhile.
unfoldable pub owed_cleanup {ℓ} :
    {A : Type ℓ} → ℕ → Text → Snapshot → LoggingQueue A → Option IntegrityTask → Registry → Registry
unfolding backlog_empty
owed_cleanup now client_id snap q none registry = registry
owed_cleanup now client_id snap q (some t) registry =
    if ltb snap.last_client_integrity_run t.task.last_execution
      && backlog_empty q
      && not t.task.executing
      && text_eq client_id unmanaged_client_id
    then perform_cleanup now client_id registry
    else registry

-- From the loop on.
unfoldable pub end_pass {ℓ} :
    {A : Type ℓ}
    → ℕ
    → Text
    → Snapshot
    → LoggingQueue A
    → Option IntegrityTask
    → Registry
    → LoggingQueue A × (Option IntegrityTask × Registry)
unfolding owed_cleanup backlog_empty switch_context
end_pass now client_id snap q t registry = (
  switch_context q,
  (
    if ltb 0 snap.total && backlog_empty q then with_paused (resume_client client_id) t else t,
    owed_cleanup now client_id snap q t registry,
  ),
)
