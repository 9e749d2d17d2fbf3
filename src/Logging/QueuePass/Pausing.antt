-- ===== src/Logging/QueuePass/Pausing.antt =====
-- Pauses of the clean-up around a pass of `ClientQueueProcessor::processRequestQueue`
-- (src/logging/client-queue-processor.cc).
use residue.Core.Configuration.{unmanaged_client_id, member}
use residue.Core.Registry.{Registry, find_client}
use residue.Logging.LoggingQueue.{LoggingQueue, size, backlog_empty}
use residue.Tasks.Task.{Task}
use residue.Tasks.ClientIntegrityTask.{PausedClients, pause_client, resume_client, perform_cleanup}
use residue.Logging.QueuePass.{IntegrityTask, Snapshot, begin_pass, owed_cleanup, end_pass}
use residue.Prelude.{
  ℕ, ◌≡◌, refl, ◌∙◌, inl, inr, false, not, ◌&&◌, ◌||◌, Option, none, some, [], ◌∷◌, arith, ltb,
  if◌then◌else◌, Bool-cases, Text, text_eq, text_eq_iff,
}

-- A set of clients has none twice.
abbrev pub IsUnique : PausedClients → Type 0
IsUnique [] = Unit
IsUnique (x ∷ xs) = (member xs x ≡ false) × IsUnique xs

pause_client_lem :
    (id j : Text) (paused : PausedClients)
    → member (pause_client id paused) j ≡ (text_eq id j || member paused j)
unfolding pause_client
pause_client_lem id j paused = ground (arith, text_eq_iff id j)

pause_client-IsUnique :
    (id : Text) (paused : PausedClients) → IsUnique paused → IsUnique (pause_client id paused)
unfolding pause_client
pause_client-IsUnique id paused u = ground (arith, u)

resume_client_lem :
    (id j : Text) (paused : PausedClients)
    → IsUnique paused
    → (member (resume_client id paused) j ≡ (not (text_eq id j) && member paused j))
      × IsUnique (resume_client id paused)
unfolding resume_client
resume_client_lem id j [] u = (ground arith, tt)
resume_client_lem id j (x ∷ xs) u = ground (
  arith,
  text_eq_iff x id,
  text_eq_iff x j,
  text_eq_iff id j,
  resume_client_lem id j xs u.1,
  resume_client_lem id x xs u.1,
)

-- The clients that the task must leave alone; a missing task has none.
abbrev pub paused_of : Option IntegrityTask → PausedClients
paused_of none = []
paused_of (some t) = t.paused

-- The task may run while the pass does.
abbrev pub with_task : Task → Option IntegrityTask → Option IntegrityTask
with_task task none = none
with_task task (some t) = some (record t { task = task })

-- A pass over a queue that is not empty pauses its client at the start, and resumes it at the end if
-- no request has come meanwhile; else it stays paused for the next pass. A pass over an empty queue
-- changes nothing of this, and no pass does for another client.
pub pass-paused {ℓ} :
    {A : Type ℓ} (now : ℕ) (id j : Text) (q q' : LoggingQueue A) (t : IntegrityTask) (task : Task)
    (registry : Registry)
    → IsUnique t.paused
    → let (snap, during) = begin_pass id q (some t) in
      let (_, (after, _)) = end_pass now id snap q' (with_task task during) registry in
      (member (paused_of during) j ≡ ((ltb 0 (size q) && text_eq id j) || member t.paused j))
      × (member (paused_of after) j
          ≡ (if ltb 0 (size q) && text_eq id j then not (backlog_empty q') else member t.paused j))
      × IsUnique (paused_of after)
unfolding begin_pass end_pass
pass-paused now id j q q' t task registry u = elim (Bool-cases (ltb 0 (size q))) [
  | inr nothing_to_do ↦ rw nothing_to_do (refl, refl, u)
  | inl some_work ↦ elim (Bool-cases (backlog_empty q')) [
    | inl idle ↦
        let (at, unique) =
          resume_client_lem id j (pause_client id t.paused) (pause_client-IsUnique id t.paused u) in
        rw (some_work, idle)
          (
            pause_client_lem id j t.paused,
            at ∙ ground (arith, pause_client_lem id j t.paused),
            unique,
          )
    | inr busy ↦
        rw (some_work, busy)
          (
            pause_client_lem id j t.paused,
            ground (arith, pause_client_lem id j t.paused),
            pause_client-IsUnique id t.paused u,
          )
  ]
]

-- The clean-up that a pass owes its client is never carried out: where no client has the id that
-- stands for all unmanaged ones, no pass of any queue changes the registry.
pub end_pass-registry {ℓ} :
    {A : Type ℓ} (now : ℕ) (id : Text) (snap : Snapshot) (q : LoggingQueue A)
    (t : Option IntegrityTask) (registry : Registry)
    → find_client registry unmanaged_client_id ≡ none
    → (end_pass now id snap q t registry).1.1 ≡ registry
unfolding end_pass owed_cleanup perform_cleanup find_client
end_pass-registry now id snap q none registry h = refl
end_pass-registry now id snap q (some t) registry h =
    elim (Bool-cases (text_eq id unmanaged_client_id)) [
      | inr other ↦ ground (arith, other)
      | inl same ↦ ground (arith, h, (text_eq_iff id unmanaged_client_id).0 same)
    ]
