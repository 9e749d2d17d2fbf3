-- ===== src/Core/Configuration/Rotation.antt =====
-- The rotation frequency of a managed logger, as `Configuration::loadManagedLoggers` reads it and
-- `Configuration::exportAsString` writes it (src/core/configuration.cc).
pub mod Reload
use residue.Core.Configuration.{
  Configuration, Frequency, never, hourly, six_hours, twelve_hours, daily, weekly, monthly, yearly,
}
use residue.Prelude.{
  ℕ, ◌-◌, ◌&&◌, ◌||◌, Option, none, some, map, leb, if◌then◌else◌, Text, codes, text_eq, is_empty,
}
use residue.Prelude.Map

-- `toupper` of a byte, in the C locale.
abbrev pub upper : ℕ → ℕ
upper c = if leb 97 c && leb c 122 then c - 32 else c

abbrev pub to_upper : Text → Text
to_upper s = map upper s

-- The frequency that a name in capitals stands for, `never` where it stands for none.
unfoldable pub frequency_of : Text → Frequency
frequency_of name =
    if text_eq name (codes "HOURLY")
    then hourly
    else if text_eq name (codes "DAILY")
    then daily
    else if text_eq name (codes "SIX_HOURS")
    then six_hours
    else if text_eq name (codes "TWELVE_HOURS")
    then twelve_hours
    else if text_eq name (codes "WEEKLY")
    then weekly
    else if text_eq name (codes "MONTHLY")
    then monthly
    else if text_eq name (codes "YEARLY")
    then yearly
    else never

-- What becomes of `m_rotationFrequencies` for one logger: `std::unordered_map::insert` keeps what is
-- there.
unfoldable pub load_rotation : Text → Text → Configuration → Configuration
unfolding frequency_of
load_rotation logger_id text conf =
    let rotation_freq = to_upper text in
    if is_empty rotation_freq || text_eq rotation_freq (codes "NEVER") then conf else record conf {
      rotation_frequencies =
          Map.insert conf.rotation_frequencies logger_id (frequency_of rotation_freq);
    }

-- The switch of the export.
abbrev pub frequency_str : Frequency → Text
frequency_str hourly = codes "HOURLY"
frequency_str daily = codes "DAILY"
frequency_str weekly = codes "WEEKLY"
frequency_str monthly = codes "MONTHLY"
frequency_str yearly = codes "YEARLY"
frequency_str never = codes "NEVER"
frequency_str six_hours = codes "NEVER"
frequency_str twelve_hours = codes "NEVER"

abbrev pub written : Option Frequency → Option Text
written none = none
written (some never) = none
written (some f) = some (frequency_str f)

-- The value of "rotation_freq" that is exported for a logger, if there is one.
unfoldable pub export_rotation : Configuration → Text → Option Text
export_rotation conf logger_id = written (Map.find conf.rotation_frequencies logger_id)
