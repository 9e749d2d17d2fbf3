-- ===== src/Core/Configuration/Rotation/Reload.antt =====
-- What the export of a configuration (src/core/configuration.cc) keeps of the rotation frequencies.
use residue.Core.Configuration.{
  Configuration, Frequency, never, hourly, six_hours, twelve_hours, daily, weekly, monthly, yearly,
  value_or, get_rotation_frequency,
}
use residue.Core.Configuration.Rotation.{
  to_upper, frequency_of, load_rotation, written, export_rotation,
}
use residue.Prelude.{
  ◌≡◌, refl, ◌∙◌, ◌||◌, Option, none, some, [], arith, if◌then◌else◌, Text, codes, text_eq,
  text_eq_refl, is_empty,
}
use residue.Prelude.Map
use residue.Prelude.Map.{find-insert}

-- The frequencies that the export has no name for are lost.
abbrev pub kept : Frequency → Frequency
kept six_hours = never
kept twelve_hours = never
kept never = never
kept hourly = hourly
kept daily = daily
kept weekly = weekly
kept monthly = monthly
kept yearly = yearly

abbrev read : Text → Frequency
read text =
    if is_empty (to_upper text) || text_eq (to_upper text) (codes "NEVER")
    then never
    else frequency_of (to_upper text)

get-load :
    (id text : Text) (m : Configuration)
    → Map.find m.rotation_frequencies id ≡ none
    → get_rotation_frequency (load_rotation id text m) id ≡ read text
unfolding get_rotation_frequency load_rotation
get-load id text m absent = ground (
  arith,
  absent,
  find-insert m.rotation_frequencies id id (frequency_of (to_upper text)),
  text_eq_refl id,
)

read-written : (o : Option Frequency) → read (value_or (written o) []) ≡ kept (value_or o never)
unfolding frequency_of text_eq
read-written none = refl
read-written (some never) = refl
read-written (some hourly) = refl
read-written (some six_hours) = refl
read-written (some twelve_hours) = refl
read-written (some daily) = refl
read-written (some weekly) = refl
read-written (some monthly) = refl
read-written (some yearly) = refl

-- A logger's rotation frequency that is exported, and loaded into a configuration that has none for
-- this logger yet, is the one it was, but for those of six and of twelve hours, which become never.
pub load-export :
    (before after : Configuration) (id : Text)
    → Map.find after.rotation_frequencies id ≡ none
    → get_rotation_frequency (load_rotation id (value_or (export_rotation before id) []) after) id
      ≡ kept (get_rotation_frequency before id)
unfolding export_rotation get_rotation_frequency
load-export before after id absent =
    get-load id (value_or (export_rotation before id) []) after absent
    ∙ read-written (Map.find before.rotation_frequencies id)
