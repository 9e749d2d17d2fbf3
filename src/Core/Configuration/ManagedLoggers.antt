-- ===== src/Core/Configuration/ManagedLoggers.antt =====
-- `Configuration::loadManagedLoggers` and `validateConfigFile` (src/core/configuration.cc): the loggers
-- that the configuration names. The set-up of the logging library with their files is left out.
pub mod Usable
use residue.Core.Configuration.{Configuration, is_managed_logger}
use residue.Core.Configuration.Rotation.{to_upper, load_rotation}
use residue.Core.Configuration.Settings.{contains}
use residue.Utils.Strings.{trim}
use residue.Utils.Templates.{starts_with}
use residue.Prelude.Map
use residue.Prelude.Map.{Map}
use residue.Prelude.{
  ◌+◌, Bool, true, false, not, ◌&&◌, ◌||◌, Option, none, some, List, [], ◌∷◌, ◌++◌, if◌then◌else◌,
  Text, codes, text_eq, is_empty,
}

-- A node of the array: its fields, empty where they are missing.
pub record LoggerNode : Type 0 where
  pub logger_id : Text
  pub configuration_file : Text
  pub user : Text
  pub rotation_freq : Text
  pub archived_log_filename : Text
  pub archived_log_compressed_filename : Text
  pub archived_log_directory : Text

-- The system around it: `resolveResidueHomeEnvVar`, the lines of the files that can be opened, the
-- users, and the names that the logging library gives to the configurations that are not allowed.
pub record LoggerHost : Type 0 where
  pub resolve : Text → Text
  pub file_exists : Text → Bool
  pub lines : Text → Option (List Text)
  pub has_user : Text → Bool
  pub illegal_configs : List Text

-- The members that the loading changes.
pub record Loggers : Type 0 where
  pub conf : Configuration
  pub remote_managed_loggers : List Text
  pub archived_logs_filenames : Map Text
  pub archived_logs_compressed_filenames : Map Text
  pub archived_logs_directories : Map Text

-- What is written to the error stream.
pub data LoggerComplaint : Type 0 where
  no_logger_id duplicate_logger no_such_file bad_config_file unknown_logger_user : LoggerComplaint
  no_config_file invalid_frequency illegal_character : LoggerComplaint

abbrev pub starts_with_any : Text → List Text → Bool
starts_with_any line [] = false
starts_with_any line (illegal ∷ more) = starts_with line illegal || starts_with_any line more

abbrev pub are_legal : List Text → List Text → Bool
are_legal illegal [] = true
are_legal illegal (line ∷ lines) =
    not (starts_with_any (trim line) illegal) && are_legal illegal lines

unfoldable pub validate_config_file : LoggerHost → Text → Bool
unfolding starts_with
validate_config_file host filename = elim (host.lines filename) [
  | none ↦ false
  | some lines ↦ are_legal host.illegal_configs lines
]

-- The checks before a logger is taken in.
unfoldable pub logger_refusal : LoggerHost → LoggerNode → Loggers → Option LoggerComplaint
unfolding validate_config_file is_managed_logger
logger_refusal host node s =
    if is_empty node.logger_id
    then some no_logger_id
    else if is_managed_logger s.conf node.logger_id
    then some duplicate_logger
    else if is_empty node.configuration_file
    then some no_config_file
    else if not (host.file_exists (host.resolve node.configuration_file))
    then some no_such_file
    else if not (validate_config_file host (host.resolve node.configuration_file))
    then some bad_config_file
    else none

unfoldable pub take_in_logger : LoggerHost → Bool → LoggerNode → Loggers → Loggers
take_in_logger host via_url node s = record s {
  conf = record s.conf {
    configurations =
        Map.insert s.conf.configurations node.logger_id (host.resolve node.configuration_file);
  };
  remote_managed_loggers =
      if via_url then node.logger_id ∷ s.remote_managed_loggers else s.remote_managed_loggers;
}

unfoldable pub set_user : LoggerNode → Loggers → Loggers
set_user node s = if is_empty node.user then s else record s {
  conf = record s.conf {
    managed_logger_user_map = Map.insert s.conf.managed_logger_user_map node.logger_id node.user;
  };
}

abbrev pub is_frequency_name : Text → Bool
is_frequency_name name =
    text_eq name (codes "HOURLY")
    || text_eq name (codes "DAILY")
    || text_eq name (codes "SIX_HOURS")
    || text_eq name (codes "TWELVE_HOURS")
    || text_eq name (codes "WEEKLY")
    || text_eq name (codes "MONTHLY")
    || text_eq name (codes "YEARLY")

unfoldable pub set_rotation : LoggerNode → Loggers → Loggers × List LoggerComplaint
unfolding load_rotation
set_rotation node s =
    let name = to_upper node.rotation_freq in
    (
      record s { conf = load_rotation node.logger_id node.rotation_freq s.conf },
      if is_empty name || text_eq name (codes "NEVER") || is_frequency_name name
          then []
          else invalid_frequency ∷ [],
    )

abbrev pub has_separator : Text → Bool
has_separator name = contains name (codes "/") || contains name (codes "\\")

abbrev pub insert_given : Map Text → Text → Text → Text → Map Text
insert_given m key given value = if is_empty given then m else Map.insert m key value

unfoldable pub set_archives : LoggerNode → Loggers → Loggers × List LoggerComplaint
set_archives node s =
    let compressed = node.archived_log_compressed_filename in
    (
      record s {
        archived_logs_filenames =
            insert_given s.archived_logs_filenames node.logger_id node.archived_log_filename
              (codes "%logger-" ++ node.archived_log_filename);
        archived_logs_compressed_filenames =
            if has_separator compressed
            then s.archived_logs_compressed_filenames
            else insert_given s.archived_logs_compressed_filenames node.logger_id compressed
                compressed;
        archived_logs_directories =
            insert_given s.archived_logs_directories node.logger_id node.archived_log_directory
              node.archived_log_directory;
      },
      if not (is_empty compressed) && has_separator compressed then illegal_character ∷ [] else [],
    )

-- A logger that is taken in; with an unknown user it stays, without the rest.
unfoldable pub load_accepted :
    LoggerHost → Bool → LoggerNode → Loggers → Loggers × List LoggerComplaint
unfolding take_in_logger set_user set_rotation set_archives
load_accepted host via_url node s =
    let taken = take_in_logger host via_url node s in
    let (rotated, complaints) = set_rotation node (set_user node taken) in
    let (archived, more) = set_archives node rotated in
    if not (is_empty node.user) && not (host.has_user node.user)
    then (taken, unknown_logger_user ∷ [])
    else (archived, complaints ++ more)

abbrev pub unless_refused :
    Option LoggerComplaint
    → Loggers
    → Loggers × List LoggerComplaint
    → Loggers × List LoggerComplaint
unless_refused none s accepted = accepted
unless_refused (some complaint) s accepted = (s, complaint ∷ [])

-- One node.
unfoldable pub load_logger :
    LoggerHost → Bool → LoggerNode → Loggers → Loggers × List LoggerComplaint
unfolding logger_refusal load_accepted
load_logger host via_url node s =
    unless_refused (logger_refusal host node s) s (load_accepted host via_url node s)

unfoldable pub load_managed_loggers :
    LoggerHost → Bool → List LoggerNode → Loggers → Loggers × List LoggerComplaint
unfolding load_logger
load_managed_loggers host via_url [] s = (s, [])
load_managed_loggers host via_url (node ∷ nodes) s =
    let (s1, complaints) = load_logger host via_url node s in
    let (s2, more) = load_managed_loggers host via_url nodes s1 in (s2, complaints ++ more)
