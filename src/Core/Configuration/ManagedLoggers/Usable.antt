-- ===== src/Core/Configuration/ManagedLoggers/Usable.antt =====
-- What should hold of the loggers that `Configuration::loadManagedLoggers`
-- (src/core/configuration.cc) loads.
use residue.Core.Configuration.{Frequency, is_managed_logger}
use residue.Core.Configuration.ManagedLoggers.{
  LoggerHost, Loggers, validate_config_file, has_separator,
}
use residue.Prelude.Map
use residue.Prelude.Map.{Map}
use residue.Prelude.{◌≡◌, Bool, true, false, ◌&&◌, All, Text}

-- The file is there and has no configuration that is not allowed.
abbrev pub is_usable : LoggerHost → Text → Bool
is_usable host file = host.file_exists file && validate_config_file host file

-- Each logger stands once, with a file that can be used; users and rotations are those of such loggers,
-- and the names of archives have no separator.
pub record IsUsable (host : LoggerHost) (s : Loggers) : Type 0 where
  pub unique : Map.UniqueKeys s.conf.configurations
  pub files : All (λ (e : Text × Text). is_usable host e.1 ≡ true) s.conf.configurations
  pub users :
      All (λ (e : Text × Text). is_managed_logger s.conf e.0 ≡ true) s.conf.managed_logger_user_map
  pub rotations :
      All
        (λ (e : Text × Frequency). is_managed_logger s.conf e.0 ≡ true)
        s.conf.rotation_frequencies
  pub names :
      All (λ (e : Text × Text). has_separator e.1 ≡ false) s.archived_logs_compressed_filenames
