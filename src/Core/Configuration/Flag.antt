-- ===== src/Core/Configuration/Flag.antt =====
-- `Configuration::Flag` (src/core/configuration.h).
use residue.Prelude.{ℕ}

abbrev pub allow_unmanaged_loggers : ℕ
allow_unmanaged_loggers = 1

abbrev pub allow_bulk_log_request : ℕ
allow_bulk_log_request = 16

abbrev pub immediate_flush : ℕ
immediate_flush = 32

abbrev pub allow_unmanaged_clients : ℕ
allow_unmanaged_clients = 64

abbrev pub allow_insecure_connection : ℕ
allow_insecure_connection = 128

abbrev pub compression : ℕ
compression = 256

abbrev pub enable_cli : ℕ
enable_cli = 512

abbrev pub requires_timestamp : ℕ
requires_timestamp = 1024

abbrev pub enable_dynamic_buffer : ℕ
enable_dynamic_buffer = 2048
