-- ===== src/Core/Configuration/Settings.antt =====
-- `Configuration::loadFromInput` (src/core/configuration.cc): the settings of the server, their limits
-- and what makes a configuration valid. The loading of loggers, clients, the black list and the
-- extensions comes in as what it leaves.
pub mod Limits
pub mod Complete
pub mod Tests
pub mod Valid
use Prim.Native.Nat.{bit_and, bit_or}
use residue.Core.Configuration.{value_or}
use residue.Core.Configuration.Flag
use residue.Core.Configuration.ServerRsa.{
  Machine, Complaint, complain_if, load_flags, flag_set, ServerRsa, load_rsa, invalid_ports,
  invalid_server_key, no_archive_directory, no_archive_filename, no_archive_compressed_filename,
  invalid_key_size, mode_too_open, mode_not_readable, mode_not_writable, invalid_max_items,
  no_default_logger, no_residue_logger,
}
use residue.Core.JsonDoc.{JsonDoc, is_valid, get_bool, get_string, get_unsigned}
use residue.Prelude.Map
use residue.Prelude.Map.{Map}
use residue.Utils.Templates.{find}
use residue.Prelude.{
  ℕ, ◌+◌, ◌^◌, min, max, Bool, true, false, not, ◌&&◌, ◌||◌, none, some, List, [], ◌∷◌, ◌++◌, ltb,
  ◌==◌, if◌then◌else◌, length, Text, codes, text_eq, is_empty,
}

-- A port is an `int`, as the 32 bits of its two's complement.
pub record Settings : Type 0 where
  pub admin_port : ℕ
  pub connect_port : ℕ
  pub logging_port : ℕ
  pub flag : ℕ
  pub server_key : Text
  pub server_rsa_private_key_file : Text
  pub server_rsa_public_key_file : Text
  pub server_rsa_key : Text × Text
  pub server_rsa_secret : Text
  pub archived_log_directory : Text
  pub archived_log_filename : Text
  pub archived_log_compressed_filename : Text
  pub client_age : ℕ
  pub default_key_size : ℕ
  pub file_mode : ℕ
  pub non_acknowledged_client_age : ℕ
  pub timestamp_validity : ℕ
  pub client_integrity_task_interval : ℕ
  pub dispatch_delay : ℕ
  pub max_items_in_bulk : ℕ

-- What the loading of loggers, clients, the black list and the extensions leaves: the configuration
-- files of the loggers, and whether it wrote nothing to the error stream.
pub record Later : Type 0 where
  pub configurations : Map Text
  pub is_clean : Bool

pub record Loaded : Type 0 where
  pub settings : Settings
  pub is_valid : Bool
  pub is_malformed_json : Bool

-- The `int` is greater than 0.
abbrev pub is_positive : ℕ → Bool
is_positive n = ltb 0 n && ltb n (2 ^ 31)

abbrev pub contains : Text → Text → Bool
contains str what = elim (find str what 0) [ some _ ↦ true | none ↦ false ]

unfoldable pub names_complaints : Text → Text → Text → List Complaint
unfolding find
names_complaints directory filename compressed_filename =
    complain_if (is_empty directory) no_archive_directory
    ++ (complain_if (is_empty filename) no_archive_filename
        ++ complain_if
            (is_empty compressed_filename
              || text_eq compressed_filename filename
              || contains compressed_filename (codes "/")
              || contains compressed_filename (codes "\\"))
            no_archive_compressed_filename)

abbrev pub mode_complaints : ℕ → List Complaint
mode_complaints mode =
    if flag_set mode 2 || flag_set mode 1
    then mode_too_open ∷ []
    else if not (flag_set mode 256)
    then mode_not_readable ∷ []
    else complain_if (not (flag_set mode 128)) mode_not_writable

abbrev pub limit_client_age : ℕ → ℕ
limit_client_age given = if not (given == 0) && ltb given 120 then 120 else given

abbrev pub limit_non_acknowledged : ℕ → ℕ
limit_non_acknowledged given = if ltb given 120 then 120 else given

abbrev pub limit_validity : ℕ → ℕ
limit_validity given = if ltb given 30 || ltb 86400 given then 30 else given

-- The interval that is given, or else a default of at least 300 seconds.
unfoldable pub load_interval : JsonDoc → ℕ → ℕ → ℕ
unfolding get_unsigned
load_interval doc client_age non_acknowledged =
    let lower = min client_age non_acknowledged in
    let default_interval = max 300 lower in
    let given = get_unsigned doc (codes "client_integrity_task_interval") default_interval in
    if given == 0 || ltb given lower then default_interval else given

abbrev pub limit_delay : ℕ → ℕ
limit_delay given = if ltb 500 given then 1 else given

-- The members, and what was written to the error stream before the loggers are loaded.
unfoldable pub load_settings : Machine → JsonDoc → Settings × List Complaint
unfolding load_flags load_rsa load_interval names_complaints get_string get_unsigned
load_settings machine doc =
    let admin_port = get_unsigned doc (codes "admin_port") 8776 in
    let connect_port = get_unsigned doc (codes "connect_port") 8777 in
    let logging_port = get_unsigned doc (codes "logging_port") 8778 in
    let flag = load_flags doc in
    let server_key = get_string doc (codes "server_key") machine.generated_key in
    let (rsa, rsa_complaints) =
      load_rsa machine doc (flag_set flag Flag.allow_insecure_connection) in
    let directory = get_string doc (codes "archived_log_directory") [] in
    let filename = get_string doc (codes "archived_log_filename") [] in
    let compressed = get_string doc (codes "archived_log_compressed_filename") [] in
    let age = limit_client_age (get_unsigned doc (codes "client_age") 259200) in
    let key_size = get_unsigned doc (codes "default_key_size") 256 in
    let mode = get_unsigned doc (codes "file_mode") 416 in
    let young =
      limit_non_acknowledged (get_unsigned doc (codes "non_acknowledged_client_age") 300) in
    let items = get_unsigned doc (codes "max_items_in_bulk") 5 in
    (
      record {
        admin_port = admin_port;
        connect_port = connect_port;
        logging_port = logging_port;
        flag = flag;
        server_key = server_key;
        server_rsa_private_key_file = rsa.private_key_file;
        server_rsa_public_key_file = rsa.public_key_file;
        server_rsa_key = rsa.key;
        server_rsa_secret = rsa.secret;
        archived_log_directory = directory;
        archived_log_filename = filename;
        archived_log_compressed_filename = compressed;
        client_age = age;
        default_key_size = key_size;
        file_mode = mode;
        non_acknowledged_client_age = young;
        timestamp_validity = limit_validity (get_unsigned doc (codes "timestamp_validity") 120);
        client_integrity_task_interval = load_interval doc age young;
        dispatch_delay = limit_delay (get_unsigned doc (codes "dispatch_delay") 1);
        max_items_in_bulk = items;
      },
      complain_if
            (not (is_positive admin_port && is_positive connect_port && is_positive logging_port))
            invalid_ports
          ++ (complain_if (not (length server_key == 64)) invalid_server_key
              ++ (rsa_complaints
                  ++ (names_complaints directory filename compressed
                      ++ (complain_if
                            (not (key_size == 128)
                              && not (key_size == 192)
                              && not (key_size == 256))
                            invalid_key_size
                          ++ (mode_complaints mode
                              ++ complain_if (ltb items 5 || ltb 500 items) invalid_max_items))))),
    )

abbrev pub required_complaints : Map Text → List Complaint
required_complaints configurations =
    complain_if (is_empty (value_or (Map.find configurations (codes "default")) []))
      no_default_logger
    ++ complain_if (is_empty (value_or (Map.find configurations (codes "residue")) []))
        no_residue_logger

-- The clean start, which leaves ports and ages as they were, and two of the names.
abbrev pub cleaned : Settings → Settings
cleaned settings = record settings {
  flag = 0;
  server_key = [];
  server_rsa_private_key_file = [];
  server_rsa_public_key_file = [];
  server_rsa_key = ([], []);
  server_rsa_secret = [];
  archived_log_compressed_filename = [];
}

unfoldable pub load_from_input : Machine → JsonDoc → Later → Settings → Loaded
unfolding load_settings Map.find
load_from_input machine doc later before =
    let (settings, complaints) = load_settings machine doc in
    if not (is_valid doc)
    then record { settings = cleaned before; is_valid = false; is_malformed_json = true }
    else record {
      settings = settings;
      is_valid =
          is_empty (complaints ++ required_complaints later.configurations) && later.is_clean;
      is_malformed_json = false;
    }
