-- ===== src/Tasks/Task/Schedule.antt =====
-- The loop of `Task::start` (src/tasks/task.cc), beside calls of `kickOff` by hand.
use residue.Tasks.Task.{
  Task, reschedule_from, begin_run, end_run, kick_off, Event, wakes, manual_begins, manual_ends,
  Loop, Run, start, turn, run,
}
use residue.Prelude.{
  ℕ, zero, suc, ◌+◌, ◌≤◌, ◌≡◌, refl, sym, ap, ◌∙◌, Bool, true, false, none, some, List, [], ◌∷◌,
  arith, ltb, if◌then◌else◌, length,
}

-- The times when the loop wakes up and no run by hand is under way.
abbrev pub free_wakes : Bool → List Event → ℕ
free_wakes manual [] = 0
free_wakes false (wakes late work ∷ es) = suc (free_wakes false es)
free_wakes true (wakes late work ∷ es) = free_wakes true es
free_wakes manual (manual_begins now ∷ es) = free_wakes true es
free_wakes manual (manual_ends ∷ es) = free_wakes false es

-- The runs by hand that come to their end.
abbrev pub manual_runs : Bool → List Event → ℕ
manual_runs manual [] = 0
manual_runs manual (wakes late work ∷ es) = manual_runs manual es
manual_runs manual (manual_begins now ∷ es) = manual_runs true es
manual_runs true (manual_ends ∷ es) = suc (manual_runs false es)
manual_runs false (manual_ends ∷ es) = manual_runs false es

abbrev pub iterate {ℓ} : {S : Type ℓ} → ℕ → (S → S) → S → S
iterate zero f s = s
iterate (suc n) f s = iterate n f (f s)

-- The wait from a time on: the round-off, or the interval where that is 0.
abbrev pub wait : (ℕ → ℕ) → ℕ → ℕ → ℕ
wait round_off interval now = if ltb 0 (round_off now) then round_off now else interval

-- Each run is due a wait after the time `from` or the end of the run before, and is not early.
abbrev pub IsOnTime : (ℕ → ℕ) → ℕ → ℕ → List Run → Type 0
IsOnTime round_off interval from [] = Unit
IsOnTime round_off interval from (r ∷ rs) =
    (r.due ≡ from + wait round_off interval from)
    × (r.due ≤ r.started)
    × (r.started ≤ r.finished)
    × IsOnTime round_off interval r.finished rs

module _ {ℓ} {S : Type ℓ} (round_off : ℕ → ℕ) (execute : S → S) (interval : ℕ) where
  record IsScheduled (from : ℕ) (l : Loop S) : Type ℓ where
    same : l.task.interval ≡ interval
    waits : l.task.next_wait ≡ wait round_off interval from
    next : l.task.next_execution ≡ from + wait round_off interval from
    past : from ≤ l.clock
    marked : l.task.executing ≡ l.manual

  reschedule_lem :
      (now : ℕ) (t : Task)
      → t.interval ≡ interval
      → let t' = reschedule_from round_off now t in
        (t'.interval ≡ interval)
        × (t'.next_wait ≡ wait round_off interval now)
        × (t'.next_execution ≡ now + wait round_off interval now)
        × (t'.executing ≡ t.executing)
  unfolding reschedule_from
  reschedule_lem now t h = ground arith

  -- A loop whose task runs, as the turn of a wake that finds it idle leaves it.
  abbrev ran : ℕ → ℕ → Loop S → Loop S
  ran woken done l = record l {
    task =
        reschedule_from round_off done
          (record (l.task) { last_execution = woken; executing = false });
    server = execute l.server;
    clock = done;
  }

  turn_idle :
      (woken done : ℕ) (l : Loop S)
      → l.task.executing ≡ false
      → turn round_off execute woken done l ≡ (
        ran woken done l,
        record { due = l.task.next_execution; started = woken; finished = done } ∷ [],
      )
  unfolding turn kick_off begin_run end_run
  turn_idle woken done l h = rw h refl

  turn_busy :
      (woken done : ℕ) (l : Loop S)
      → l.task.executing ≡ true
      → turn round_off execute woken done l ≡ (record l { clock = woken }, [])
  unfolding turn kick_off begin_run
  turn_busy woken done l h = rw h refl

  ran-IsScheduled :
      (woken done from : ℕ) (l : Loop S)
      → IsScheduled from l
      → l.manual ≡ false
      → IsScheduled done (ran woken done l)
  ran-IsScheduled woken done from l h idle =
      let (same, waits, next, marked) =
        reschedule_lem done (record (l.task) { last_execution = woken; executing = false })
          h.same in
      record {
        same = same;
        waits = waits;
        next = next;
        past = omega arith;
        marked = marked ∙ sym idle;
      }

  Result : ℕ → List Event → Bool → S → Loop S × List Run → Type ℓ
  Result from es manual server (last, runs) =
      (last.task.executing ≡ last.manual)
      × (length runs ≡ free_wakes manual es)
      × (last.server ≡ iterate (free_wakes manual es + manual_runs manual es) execute server)
      × IsOnTime round_off interval from runs

  begin_idle :
      (now : ℕ) (t : Task)
      → t.executing ≡ false
      → begin_run now t ≡ some (record t { last_execution = now; executing = true })
  unfolding begin_run
  begin_idle now t h = rw h refl

  begin_busy : (now : ℕ) (t : Task) → t.executing ≡ true → begin_run now t ≡ none
  unfolding begin_run
  begin_busy now t h = rw h refl

  once_more : (m n : ℕ) (s : S) → m ≡ suc n → iterate n execute (execute s) ≡ iterate m execute s
  once_more m n s h = ap (λ k. iterate k execute s) (sym h)

  run-IsOnTime :
      (es : List Event) (manual : Bool) (l : Loop S) (from : ℕ)
      → IsScheduled from l
      → l.manual ≡ manual
      → Result from es manual l.server (run round_off execute es l)
  unfolding run Result end_run
  run-IsOnTime [] m l from h e = (h.marked, refl, refl, tt)
  run-IsOnTime (wakes late work ∷ es) true l from h busy =
      let woken = l.clock + l.task.next_wait + late in
      rw (turn_busy woken (woken + work) l (h.marked ∙ busy)) (
        run-IsOnTime es true (record l { clock = woken }) from
          (record {
            same = h.same;
            waits = h.waits;
            next = h.next;
            past = omega (arith, h.past);
            marked = h.marked;
          })
          busy)
  run-IsOnTime (wakes late work ∷ es) false l from h idle =
      let woken = l.clock + l.task.next_wait + late in
      let done = woken + work in
      let (marked, count, server, on_time) =
        run-IsOnTime es false (ran woken done l) done (ran-IsScheduled woken done from l h idle)
          idle in
      rw (turn_idle woken done l (h.marked ∙ idle)) (
        marked,
        ap suc count,
        server
            ∙ once_more (suc (free_wakes false es) + manual_runs false es)
                (free_wakes false es + manual_runs false es) l.server (omega arith),
        (h.next, omega (arith, h.next, h.waits, h.past), omega arith, on_time),
      )
  run-IsOnTime (manual_begins now ∷ es) true l from h busy =
      rw (begin_busy now (l.task) (h.marked ∙ busy)) (run-IsOnTime es true l from h busy)
  run-IsOnTime (manual_begins now ∷ es) false l from h idle =
      let t = record (l.task) { last_execution = now; executing = true } in
      rw (begin_idle now (l.task) (h.marked ∙ idle)) (
        run-IsOnTime es true (record l { task = t; manual = true }) from
          (record { same = h.same; waits = h.waits; next = h.next; past = h.past; marked = refl })
          refl)
  run-IsOnTime (manual_ends ∷ es) true l from h busy =
      let t = end_run (l.task) in
      let (marked, count, server, on_time) =
        run-IsOnTime es false (record l { task = t; server = execute l.server; manual = false })
          from
          (record { same = h.same; waits = h.waits; next = h.next; past = h.past; marked = refl })
          refl in
      rw busy (
        marked,
        count,
        server
            ∙ once_more (free_wakes false es + suc (manual_runs false es))
                (free_wakes false es + manual_runs false es) l.server (omega arith),
        on_time,
      )
  run-IsOnTime (manual_ends ∷ es) false l from h idle =
      simp idle (run-IsOnTime es false l from h idle)

-- After any events, the task is marked as running exactly if a run by hand is under way; each wake
-- at which none is makes one run of the loop; the server has undergone these runs, and those by hand
-- that have ended, each once; and each run of the loop is due, counted from the start of the loop or
-- from the end of the loop's run before, after the round-off of that time, or after the interval where
-- that is 0, and does not begin earlier than it is due.
pub run-start {ℓ} :
    {S : Type ℓ} (round_off : ℕ → ℕ) (execute : S → S) (now : ℕ) (t : Task) (s : S)
    (es : List Event)
    → t.executing ≡ false
    → let (last, runs) = run round_off execute es (start round_off execute now t s) in
      (last.task.executing ≡ last.manual)
      × (length runs ≡ free_wakes false es)
      × (last.server ≡ iterate (free_wakes false es + manual_runs false es) execute s)
      × IsOnTime round_off t.interval now runs
unfolding start Result
run-start round_off execute now t s es idle =
    let (same, waits, next, marked) = reschedule_lem round_off execute t.interval now t refl in
    run-IsOnTime round_off execute t.interval es false (start round_off execute now t s) now
      (record {
        same = same;
        waits = waits;
        next = next;
        past = omega arith;
        marked = marked ∙ idle;
      })
      refl
