-- ===== src/Core/Configuration/ServerRsa.antt =====
-- The flags and the RSA keys of the server (`Configuration::loadFromInput` in
-- src/core/configuration.cc, `RSA::verifyKeyPair` in src/crypto/rsa.cc,
-- `Utils::resolveResidueHomeEnvVar` in src/utils/utils.cc).
use Prim.Native.Nat.{bit_and, bit_or}
use residue.Core.Configuration.Flag
use residue.Core.JsonDoc.{JsonDoc, get_bool, get_string}
use residue.Utils.Templates.{find}
use residue.Prelude.{
  ℕ, ◌+◌, Bool, true, false, not, ◌&&◌, ◌||◌, Option, none, some, List, [], ◌∷◌, ◌++◌, ◌==◌,
  if◌then◌else◌, length, take, drop, Text, codes, text_eq, is_empty,
}

-- What the machine and the libraries have.
pub record Machine : Type 0 where
  pub generated_key : Text
  -- `m_homePath`, and the environment's RESIDUE_HOME.
  pub home_path : Text
  pub residue_home : Text
  pub file_exists : Text → Bool
  pub contents : Text → Text
  pub base16_decode : Text → Text
  pub rsa_encrypt : Text → Text → Option Text
  pub rsa_decrypt : Text → Text → Text → Option Text

-- What is written to the error stream.
pub data Complaint : Type 0 where
  invalid_ports invalid_server_key one_rsa_key no_rsa_file invalid_rsa_pair no_plain : Complaint
  no_archive_directory no_archive_filename no_archive_compressed_filename : Complaint
  invalid_key_size mode_too_open mode_not_readable mode_not_writable invalid_max_items : Complaint
  no_default_logger no_residue_logger : Complaint

abbrev pub complain_if : Bool → Complaint → List Complaint
complain_if b c = if b then c ∷ [] else []

abbrev home_variable : Text
home_variable = codes "$RESIDUE_HOME"

unfoldable pub resolve_residue_home_env_var : Machine → Text → Text
unfolding find
resolve_residue_home_env_var machine str = elim (find str home_variable 0) [
  | none ↦ str
  | some pos ↦
      take pos str
      ++ ((if is_empty machine.home_path then machine.residue_home else machine.home_path)
          ++ drop (pos + length home_variable) str)
]

-- `RSA::verifyKeyPair`, which an exception makes false.
unfoldable pub verify_key_pair : Machine → Text → Text → Text → Bool
verify_key_pair machine private_key public_key secret =
    elim (machine.rsa_encrypt (codes "test_rsa") public_key) [
      | none ↦ false
      | some encr ↦ elim (machine.rsa_decrypt encr private_key secret) [
        | none ↦ false
        | some decr ↦ text_eq (codes "test_rsa") decr
      ]
    ]

-- `addFlag`, where the document says so.
abbrev add_if : JsonDoc → Text → Bool → ℕ → ℕ → ℕ
add_if doc key default_val added flag =
    if get_bool doc key default_val then bit_or flag added else flag

unfoldable pub load_flags : JsonDoc → ℕ
unfolding get_bool
load_flags doc = add_if doc (codes "enable_dynamic_buffer") false Flag.enable_dynamic_buffer (
    add_if doc (codes "requires_timestamp") true Flag.requires_timestamp (
      add_if doc (codes "immediate_flush") true Flag.immediate_flush (
        add_if doc (codes "allow_bulk_log_request") true Flag.allow_bulk_log_request (
          add_if doc (codes "allow_unmanaged_clients") true Flag.allow_unmanaged_clients (
            add_if doc (codes "compression") true Flag.compression (
              add_if doc (codes "allow_insecure_connection") true Flag.allow_insecure_connection (
                add_if doc (codes "allow_unmanaged_loggers") true Flag.allow_unmanaged_loggers
                  (add_if doc (codes "enable_cli") true Flag.enable_cli 0))))))))

abbrev pub flag_set : ℕ → ℕ → Bool
flag_set flag bit = not (flag == 0) && not (bit_and flag bit == 0)

-- The key pair of the server: its files, the keys and the secret.
pub record ServerRsa : Type 0 where
  pub private_key_file : Text
  pub public_key_file : Text
  pub key : Text × Text
  pub secret : Text

abbrev without_key : Text → Text → ServerRsa
without_key private_file public_file = record {
  private_key_file = private_file;
  public_key_file = public_file;
  key = ([], []);
  secret = [];
}

unfoldable pub load_rsa : Machine → JsonDoc → Bool → ServerRsa × List Complaint
unfolding resolve_residue_home_env_var verify_key_pair get_string
load_rsa machine doc allows_insecure =
    let private_key_file = get_string doc (codes "server_rsa_private_key") [] in
    let public_key_file = get_string doc (codes "server_rsa_public_key") [] in
    let secret = machine.base16_decode (get_string doc (codes "server_rsa_secret") []) in
    let private_path = resolve_residue_home_env_var machine private_key_file in
    let public_path = resolve_residue_home_env_var machine public_key_file in
    let private_key = machine.contents private_path in
    let public_key = machine.contents public_path in
    if is_empty private_key_file
    then (without_key [] [], complain_if (not allows_insecure) no_plain)
    else if is_empty public_key_file
    then (without_key private_key_file [], one_rsa_key ∷ [])
    else if not (machine.file_exists private_path) || not (machine.file_exists public_path)
    then (without_key private_path public_path, no_rsa_file ∷ [])
    else if not (verify_key_pair machine private_key public_key secret)
    then (without_key private_path public_path, invalid_rsa_pair ∷ [])
    else (
      record {
        private_key_file = private_path;
        public_key_file = public_path;
        key = (private_key, public_key);
        secret = secret;
      },
      [],
    )
