-- ===== src/Core/Configuration.antt =====
-- `Configuration` (src/core/configuration.h, configuration.cc): what the server reads of it while
-- it runs.
pub mod Flag
pub mod Blacklist
pub mod ManagedClients
pub mod ManagedLoggers
pub mod Rotation
pub mod ServerRsa
pub mod Settings
use Prim.Native.Nat.{bit_and, bit_or}
use residue.Prelude.Map
use residue.Prelude.Map.{Map, is_some}
use residue.Prelude.{
  ℕ, Bool, false, not, ◌&&◌, ◌||◌, Option, none, some, List, [], ◌∷◌, ◌==◌, if◌then◌else◌, Text,
  codes, text_eq, is_empty,
}

-- `RotationFrequency`.
pub data Frequency : Type 0 where
  never hourly six_hours twelve_hours daily weekly monthly yearly : Frequency

pub record Configuration : Type 0 where
  pub flag : ℕ
  pub logging_port : ℕ
  pub server_key : Text
  pub server_rsa_private_key : Text
  pub default_key_size : ℕ
  pub client_age : ℕ
  pub non_acknowledged_client_age : ℕ
  pub timestamp_validity : ℕ
  pub max_items_in_bulk : ℕ
  pub configurations : Map Text
  pub blacklist : List Text
  pub managed_clients_keys : Map (Text × Text)
  pub remote_managed_clients : List Text
  pub managed_clients_loggers : Map (List Text)
  pub key_sizes : Map ℕ
  pub managed_client_default_logger : Map Text
  pub managed_logger_user_map : Map Text
  pub unmanaged_logger_user_map : Map Text
  pub rotation_frequencies : Map Frequency

-- The logger that the server logs to itself.
abbrev pub residue_logger_id : Text
residue_logger_id = codes "residue"

abbrev pub unmanaged_client_id : Text
unmanaged_client_id = codes "unmanaged"

unfoldable pub has_flag : Configuration → ℕ → Bool
has_flag c flag = not (c.flag == 0) && not (bit_and c.flag flag == 0)

unfoldable pub add_flag : Configuration → ℕ → Configuration
add_flag c flag = record c { flag = bit_or c.flag flag }

unfoldable pub is_managed_logger : Configuration → Text → Bool
is_managed_logger c logger_id = is_some (Map.find c.configurations logger_id)

abbrev pub member : List Text → Text → Bool
member [] a = false
member (x ∷ xs) a = text_eq x a || member xs a

unfoldable pub is_blacklisted : Configuration → Text → Bool
is_blacklisted c logger_id = member c.blacklist logger_id

abbrev pub value_or {ℓ} : {A : Type ℓ} → Option A → A → A
value_or none d = d
value_or (some a) d = a

-- `keySize(clientId)`.
unfoldable pub key_size : Configuration → Text → ℕ
key_size c client_id =
    if is_empty client_id
    then c.default_key_size
    else value_or (Map.find c.key_sizes client_id) c.default_key_size

unfoldable pub find_logger_user : Configuration → Text → Text
find_logger_user c logger_id = elim (Map.find c.managed_logger_user_map logger_id) [
  | some user ↦ user
  | none ↦ value_or (Map.find c.unmanaged_logger_user_map logger_id) []
]

-- `updateUnmanagedLoggerUserFromRequest`, at the client id of the request: the first managed client
-- that uses an unmanaged logger settles the user of its files.
unfoldable pub update_unmanaged_logger_user : Configuration → Text → Text → Configuration
update_unmanaged_logger_user c logger_id client_id =
    if is_some (Map.find c.unmanaged_logger_user_map logger_id)
    then c
    else elim (Map.find c.managed_client_default_logger client_id) [
      | none ↦ c
      | some default_logger ↦ record c {
        unmanaged_logger_user_map =
            Map.insert c.unmanaged_logger_user_map logger_id (find_logger_user c default_logger);
      }
    ]

unfoldable pub get_rotation_frequency : Configuration → Text → Frequency
get_rotation_frequency c logger_id = value_or (Map.find c.rotation_frequencies logger_id) never
