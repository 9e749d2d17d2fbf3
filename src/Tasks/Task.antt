-- ===== src/Tasks/Task.antt =====
-- `Task` (src/tasks/task.cc, task.h): the schedule that all tasks share, with the calls by
-- hand that come between the runs of the loop.
pub mod Schedule
use residue.Prelude.{
  ℕ, ◌+◌, Bool, true, false, Option, none, some, List, [], ◌∷◌, ◌++◌, ltb, if◌then◌else◌,
}

pub record Task : Type 0 where
  pub interval : ℕ
  pub next_execution : ℕ
  pub next_wait : ℕ
  pub last_execution : ℕ
  pub executing : Bool

-- The constructor; `m_nextWait` starts at 0.
abbrev pub construct : ℕ → Task
construct interval_in_seconds = record {
  interval = interval_in_seconds;
  next_execution = 0;
  next_wait = 0;
  last_execution = 0;
  executing = false;
}

-- `rescheduleFrom(now)`, with the virtual `calculateRoundOff`.
unfoldable pub reschedule_from : (ℕ → ℕ) → ℕ → Task → Task
reschedule_from calculate_round_off now t =
    let round_off = calculate_round_off now in
    if ltb 0 round_off
    then record t { next_execution = now + round_off; next_wait = round_off }
    else record t { next_execution = now + t.interval; next_wait = t.interval }

-- `kickOff` up to the call of `execute`; `none` for a task that is running. The test and the setting
-- of the flag are one step.
unfoldable pub begin_run : ℕ → Task → Option Task
begin_run now t =
    if t.executing then none else some (record t { last_execution = now; executing = true })

-- What `kickOff` does behind `execute`.
unfoldable pub end_run : Task → Task
end_run t = record t { executing = false }

abbrev pub ended {ℓ} : {S : Type ℓ} → (S → S) → Option Task → Task × S → Bool × (Task × S)
ended execute none p = (false, p)
ended execute (some t) (_, s) = (true, (end_run t, execute s))

-- `kickOff`: the virtual `execute` works on the state `S` of the server.
unfoldable pub kick_off {ℓ} : {S : Type ℓ} → (S → S) → ℕ → Task × S → Bool × (Task × S)
unfolding begin_run end_run
kick_off execute now (t, s) = ended execute (begin_run now t) (t, s)

-- What the others see of the loop of `start`, and what becomes of a call of `kickOff` by hand, on
-- another thread: it begins, and later returns. The loop wakes up `late` seconds after its wait, and
-- a run of its own takes `work` seconds.
pub data Event : Type 0 where
  wakes : (late : ℕ) (work : ℕ) → Event
  manual_begins : (now : ℕ) → Event
  manual_ends : Event

-- The loop went to sleep at the time `clock`.
pub record Loop {ℓ} (S : Type ℓ) : Type ℓ where
  pub task : Task
  pub server : S
  pub clock : ℕ
  pub manual : Bool

-- A run that the loop made: the time that it was scheduled for, its start and its end.
pub record Run : Type 0 where
  pub due : ℕ
  pub started : ℕ
  pub finished : ℕ

module _ {ℓ} {S : Type ℓ} (calculate_round_off : ℕ → ℕ) (execute : S → S) where
  -- `start` up to its loop.
  unfoldable pub start : ℕ → Task → S → Loop S
  start now t s = record {
    task = reschedule_from calculate_round_off now t;
    server = s;
    clock = now;
    manual = false;
  }

  -- One turn of the loop: the task runs, unless it does already, and is scheduled anew.
  unfoldable pub turn : ℕ → ℕ → Loop S → Loop S × List Run
  unfolding kick_off reschedule_from
  turn woken done l =
      let (ran, (t, s)) = kick_off execute woken (l.task, l.server) in
      if ran
      then (
        record l { task = reschedule_from calculate_round_off done t; server = s; clock = done },
        record { due = l.task.next_execution; started = woken; finished = done } ∷ [],
      )
      else (record l { clock = woken }, [])

  abbrev pub begun : Option Task → Loop S → Loop S
  begun none l = l
  begun (some t) l = record l { task = t; manual = true }

  unfoldable pub step : Event → Loop S → Loop S × List Run
  unfolding turn begin_run end_run
  step (wakes late work) l =
      let woken = l.clock + l.task.next_wait + late in turn woken (woken + work) l
  step (manual_begins now) l = (begun (begin_run now l.task) l, [])
  step manual_ends l =
      if l.manual
      then (record l { task = end_run (l.task); server = execute l.server; manual = false }, [])
      else (l, [])

  unfoldable pub run : List Event → Loop S → Loop S × List Run
  unfolding step
  run [] l = (l, [])
  run (e ∷ es) l = let (l', runs) = step e l in let (last, more) = run es l' in (last, runs ++ more)
