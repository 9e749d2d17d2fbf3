-- ===== src/Examples/Startup.antt =====
-- A configuration file that is loaded.
use residue.Examples.Data.{conf}
use residue.Core.Configuration.ManagedLoggers.{LoggerNode, LoggerHost, Loggers}
use residue.Core.Configuration.ServerRsa.{Machine}
use residue.Core.Configuration.Settings.{Settings, Later, load_from_input}
use residue.Core.Configuration.Settings.Limits.{WithinLimits, load_from_input-WithinLimits}
use residue.Core.Configuration.Settings.Complete.{IsComplete}
use residue.Core.Configuration.Settings.Valid.{load_from_input-IsComplete}
use residue.Core.Configuration.{value_or}
use residue.Prelude.Map
use residue.Core.JsonDoc
use residue.Core.JsonDoc.{JsonDoc}
use residue.Prelude.{
  ◌≡◌, ◌≢◌, ◌↔◌, refl, true, false, some, [], ◌∷◌, if◌then◌else◌, replicate, codes, text_eq,
}

abbrev machine : Machine
machine = record {
  generated_key = replicate 64 b'A';
  home_path = codes "/residue";
  residue_home = [];
  file_exists = λ _. true;
  contents = λ path. path;
  base16_decode = λ encoded. encoded;
  rsa_encrypt = λ text _. some text;
  rsa_decrypt = λ text _ _. some text;
}

-- A time stamp that is valid for ten seconds, and a clean-up each second.
abbrev file : JsonDoc
file = record {
  status = JsonDoc.parse_ok;
  is_array = false;
  lookup = λ key.
      if text_eq key (codes "timestamp_validity")
      then JsonDoc.number 10 10
      else if text_eq key (codes "client_integrity_task_interval")
      then JsonDoc.number 1 1
      else if text_eq key (codes "archived_log_directory")
      then JsonDoc.string (codes "/old")
      else if text_eq key (codes "archived_log_filename")
      then JsonDoc.string (codes "%level.log")
      else if text_eq key (codes "archived_log_compressed_filename")
      then JsonDoc.string (codes "%day.tar.gz")
      else if text_eq key (codes "server_rsa_private_key")
      then JsonDoc.string (codes "$RESIDUE_HOME/a.pem")
      else if text_eq key (codes "server_rsa_public_key")
      then JsonDoc.string (codes "$RESIDUE_HOME/b.pem")
      else JsonDoc.other;
  items = [];
}

abbrev later : Later
later = record {
  configurations = (codes "default", codes "d.conf") ∷ (codes "residue", codes "r.conf") ∷ [];
  is_clean = true;
}

abbrev before : Settings
before = record {
  admin_port = 0;
  connect_port = 0;
  logging_port = 0;
  flag = 0;
  server_key = [];
  server_rsa_private_key_file = [];
  server_rsa_public_key_file = [];
  server_rsa_key = ([], []);
  server_rsa_secret = [];
  archived_log_directory = [];
  archived_log_filename = [];
  archived_log_compressed_filename = [];
  client_age = 0;
  default_key_size = 0;
  file_mode = 0;
  non_acknowledged_client_age = 0;
  timestamp_validity = 0;
  client_integrity_task_interval = 0;
  dispatch_delay = 0;
  max_items_in_bulk = 0;
}

load_from_input-WithinLimits_example :
    WithinLimits (load_from_input machine file later before).settings
load_from_input-WithinLimits_example = load_from_input-WithinLimits machine file later before refl

load_from_input-IsComplete_example :
    let loaded = load_from_input machine file later before in
    (loaded.is_valid ≡ true) ↔ (
      IsComplete machine file loaded.settings
      × (value_or (Map.find later.configurations (codes "default")) [] ≢ [])
      × (value_or (Map.find later.configurations (codes "residue")) [] ≢ [])
      × (later.is_clean ≡ true))
load_from_input-IsComplete_example = load_from_input-IsComplete machine file later before refl

file_is_valid : (load_from_input machine file later before).is_valid ≡ true
unfolding load_from_input text_eq residue.Utils.Templates.starts_with
file_is_valid = refl

file_key :
    (load_from_input machine file later before).settings.server_rsa_key
    ≡ (codes "/residue/a.pem", codes "/residue/b.pem")
unfolding load_from_input text_eq residue.Utils.Templates.starts_with
file_key = refl

abbrev logger_host : LoggerHost
logger_host = record {
  resolve = λ path. path;
  file_exists = λ _. true;
  lines = λ _. some (codes "* GLOBAL:" ∷ []);
  has_user = λ _. true;
  illegal_configs = codes "--" ∷ [];
}

abbrev web_node : LoggerNode
web_node = record {
  logger_id = codes "web";
  configuration_file = codes "web.conf";
  user = codes "www";
  rotation_freq = codes "daily";
  archived_log_filename = codes "%day.log";
  archived_log_compressed_filename = codes "a/b";
  archived_log_directory = [];
}

abbrev no_loggers : Loggers
no_loggers = record {
  conf = record conf {
    configurations = [];
    managed_logger_user_map = [];
    rotation_frequencies = [];
  };
  remote_managed_loggers = [];
  archived_logs_filenames = [];
  archived_logs_compressed_filenames = [];
  archived_logs_directories = [];
}
