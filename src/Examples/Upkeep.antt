-- ===== src/Examples/Upkeep.antt =====
-- The theorems on tasks, at work.
use residue.Core.Client.{Client}
use residue.Core.Registry.{find_client}
use residue.Tasks.Task.{Task, Event, wakes, manual_begins, manual_ends, start, run}
use residue.Tasks.Task.Schedule.{free_wakes, manual_runs, iterate, IsOnTime, run-start}
use residue.Tasks.Task
use residue.Tasks.ClientIntegrityTask.{execute, pause_client}
use residue.Tasks.ClientIntegrityTask.Sweep.{
  survivor, then_maybe, find_client-execute, paused_stays,
}
use residue.Tasks.RoundOff.{LocalTime, min_round_off, six_hours, twelve_hours}
use residue.Tasks.RoundOff.Calendar.{add_days, day_of}
use residue.Tasks.RoundOff.Dates.{LocalDate}
use residue.Tasks.RoundOff.Marks.{IsZone, IsMark, hours, period_marks}
use residue.Examples.Data.{registry-IsWellFormed, bob_there, bob, registry}
use residue.Prelude.{
  ◌+◌, ◌/◌, ◌%◌, ◌≤◌, ◌<◌, ◌≡◌, refl, ◌⊎◌, inr, false, some, List, [], ◌∷◌, codes, length,
}

find_client-execute_example :
    find_client (execute 1000 (codes "alice" ∷ []) registry) (codes "bob")
    ≡ then_maybe (find_client registry (codes "bob")) (survivor 1000 (codes "alice" ∷ []))
find_client-execute_example =
    find_client-execute 1000 (codes "alice" ∷ []) registry (codes "bob") registry-IsWellFormed

paused_stays_example :
    (d : Client) × (find_client
        (execute 1000 (pause_client (codes "unmanaged") []) registry)
        (codes "bob")
      ≡ some d)
    × (record d { backup_key = codes "bob-old-key" } ≡ bob)
paused_stays_example =
    paused_stays 1000 [] registry (codes "unmanaged") (codes "bob") bob registry-IsWellFormed
      bob_there (inr (refl, refl))

abbrev task : Task
task = Task.construct 300

-- A run by hand is under way at the second wake.
abbrev events : List Event
events = wakes 1 20 ∷ manual_begins 800 ∷ wakes 0 5 ∷ manual_ends ∷ wakes 2 30 ∷ []

run-start_example :
    let (last, runs) =
      run (λ now. 0) (λ n. n + 1) events (start (λ now. 0) (λ n. n + 1) 500 task 7) in
    (last.task.executing ≡ last.manual)
    × (length runs ≡ free_wakes false events)
    × (last.server ≡ iterate (free_wakes false events + manual_runs false events) (λ n. n + 1) 7)
    × IsOnTime (λ now. 0) task.interval 500 runs
run-start_example = run-start (λ now. 0) (λ n. n + 1) 500 task 7 events refl

-- A zone two hours ahead.
abbrev local : LocalTime
local = record {
  hour_24 = λ t. (t / 3600 + 2) % 24;
  hour_12 = λ t. (t / 3600 + 2) % 12;
  week_day = λ t. ((t / 3600 + 2) / 24 + 3) % 7 + 1;
}

local-IsZone : IsZone local 2
local-IsZone = record { hour_24 = λ t. refl; hour_12 = λ t. refl; week_day = λ t. refl }

period_marks_example :
    IsMark 2 6 (100000 + six_hours local 100000)
    × (0 < six_hours local 100000)
    × (six_hours local 100000 ≤ 25200)
    × ((six_hours local 100000 ≤ 21600) ⊎ (hours 2 (100000 + min_round_off 100000) % 12 ≡ 6))
    × IsMark 2 12 (100000 + twelve_hours local 100000)
    × (0 < twelve_hours local 100000)
    × (twelve_hours local 100000 ≤ 43200)
period_marks_example = period_marks local 2 100000 local-IsZone

-- Its dates.
abbrev dates : LocalDate
dates = record {
  year = λ t. (add_days (hours 2 t / 24) (day_of 1970 1 1)).year;
  month = λ t. (add_days (hours 2 t / 24) (day_of 1970 1 1)).month;
  month_day = λ t. (add_days (hours 2 t / 24) (day_of 1970 1 1)).day;
}
