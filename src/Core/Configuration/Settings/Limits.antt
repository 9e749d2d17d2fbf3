-- ===== src/Core/Configuration/Settings/Limits.antt =====
-- Whatever a configuration file says, the limits hold (src/core/configuration.cc).
use residue.Core.Configuration.ServerRsa.{Machine}
use residue.Core.Configuration.Settings.{
  Settings, Later, load_interval, load_settings, load_from_input,
}
use residue.Core.JsonDoc.{JsonDoc, is_valid, get_unsigned}
use residue.Prelude.{ℕ, ◌≤◌, ◌<◌, min, max, ◌≡◌, ◌⊎◌, true, arith, codes}

-- The ages, intervals and delays are in their limits.
abbrev pub WithinLimits : Settings → Type 0
WithinLimits s =
    ((s.client_age ≡ 0) ⊎ (120 ≤ s.client_age))
    × (120 ≤ s.non_acknowledged_client_age)
    × (30 ≤ s.timestamp_validity)
    × (s.timestamp_validity ≤ 86400)
    × (0 < s.client_integrity_task_interval)
    × (min s.client_age s.non_acknowledged_client_age ≤ s.client_integrity_task_interval)
    × (s.dispatch_delay ≤ 500)

load_interval_lem :
    (doc : JsonDoc) (age young : ℕ)
    → (0 < load_interval doc age young) × (min age young ≤ load_interval doc age young)
unfolding load_interval
load_interval_lem doc age young =
    let default_interval = max 300 (min age young) in
    let given = get_unsigned doc (codes "client_integrity_task_interval") default_interval in
    (ground arith, ground arith)

-- Whatever the document says, provided that it parses, the loaded settings are in their limits: clients
-- live for ever or at least two minutes, unacknowledged ones at least two minutes, a time stamp is valid
-- for 30 seconds to a day, the clean-up has an interval that is not 0 and not shorter than both ages,
-- and the delay of the dispatch is at most half a second.
pub load_from_input-WithinLimits :
    (machine : Machine) (doc : JsonDoc) (later : Later) (before : Settings)
    → is_valid doc ≡ true
    → WithinLimits (load_from_input machine doc later before).settings
unfolding load_from_input load_settings
load_from_input-WithinLimits machine doc later before parses = rw parses (
  ground arith,
  ground arith,
  ground arith,
  ground arith,
  (load_interval_lem doc _ _).0,
  (load_interval_lem doc _ _).1,
  ground arith,
)
