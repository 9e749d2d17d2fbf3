-- ===== src/Core/Configuration/ManagedClients.antt =====
-- `Configuration::loadManagedClients` (src/core/configuration.cc): the clients that the configuration
-- names, with their keys, their loggers and their users.
pub mod Sound
use residue.Core.Configuration.{Configuration, is_managed_logger, unmanaged_client_id, member}
use residue.Utils.Strings.{is_alpha_numeric}
use residue.Prelude.Map
use residue.Prelude.Map.{Map, is_some}
use residue.Prelude.{
  ℕ, ◌+◌, Bool, not, ◌&&◌, ◌||◌, Option, none, some, List, [], ◌∷◌, ◌++◌, ◌==◌, if◌then◌else◌, Text,
  codes, text_eq, is_empty,
}

-- A node of the array: its fields with their defaults, and the texts of its loggers, empty for what is
-- no string, if it has an array of them.
pub record ClientNode : Type 0 where
  pub client_id : Text
  pub public_key : Text
  pub key_size : ℕ
  pub loggers : Option (List Text)
  pub default_logger : Text
  pub user : Text

-- The system around it: `resolveResidueHomeEnvVar`, the files and the users.
pub record Host : Type 0 where
  pub resolve : Text → Text
  pub file_exists : Text → Bool
  pub contents : Text → Option Text
  pub has_user : Text → Bool

-- What is written to the error stream.
pub data ClientComplaint : Type 0 where
  no_id invalid_id reserved_id no_public_key duplicate_id missing_file : ClientComplaint
  unreadable_file bad_key_size unmanaged_logger foreign_default unknown_user : ClientComplaint

abbrev pub has_id : Configuration → Text → Bool
has_id conf id = is_some (Map.find conf.managed_clients_keys id)

abbrev pub is_size : ℕ → Bool
is_size n = n == 128 || n == 192 || n == 256

-- The checks before a client is taken in.
unfoldable pub refusal : Host → ClientNode → Configuration → Option ClientComplaint
unfolding is_alpha_numeric
refusal host node conf =
    if is_empty node.client_id
    then some no_id
    else if not (is_alpha_numeric node.client_id (codes "-_@#."))
    then some invalid_id
    else if text_eq node.client_id unmanaged_client_id
    then some reserved_id
    else if is_empty node.public_key
    then some no_public_key
    else if has_id conf node.client_id
    then some duplicate_id
    else if not (host.file_exists (host.resolve node.public_key))
    then some missing_file
    else none

-- The key, where the client comes from, and the size of its AES key.
unfoldable pub take_in : Bool → ClientNode → Text → Text → Configuration → Configuration
take_in via_url node file key conf = record conf {
  managed_clients_keys = Map.insert conf.managed_clients_keys node.client_id (file, key);
  remote_managed_clients =
      if via_url && not (member conf.remote_managed_clients node.client_id)
      then node.client_id ∷ conf.remote_managed_clients
      else conf.remote_managed_clients;
  key_sizes =
      if is_size node.key_size
      then Map.insert conf.key_sizes node.client_id node.key_size
      else conf.key_sizes;
}

-- The set of the loggers that are managed.
unfoldable pub collect_loggers :
    Configuration → List Text → List Text → List Text × List ClientComplaint
collect_loggers conf set [] = (set, [])
collect_loggers conf set (id ∷ ids) =
    let skipped = collect_loggers conf set ids in
    let taken = collect_loggers conf (if member set id then set else set ++ id ∷ []) ids in
    if is_empty id
    then skipped
    else if not (is_managed_logger conf id)
    then (skipped.0, unmanaged_logger ∷ skipped.1)
    else taken

-- The user becomes that of each logger that has none.
unfoldable pub assign_user : Text → List Text → Map Text → Map Text
assign_user user [] users = users
assign_user user (id ∷ ids) users = assign_user user ids (Map.insert users id user)

unfoldable pub with_loggers :
    Host → ClientNode → List Text → Configuration → Configuration × List ClientComplaint
unfolding assign_user
with_loggers host node ids conf =
    let id = node.client_id in
    let is_default = not (is_empty node.default_logger) && member ids node.default_logger in
    let conf1 = record conf {
      managed_clients_loggers = Map.insert conf.managed_clients_loggers id ids;
      managed_client_default_logger =
          if is_default
          then Map.insert conf.managed_client_default_logger id node.default_logger
          else conf.managed_client_default_logger;
    } in
    let complaints =
      if not (is_empty node.default_logger) && not is_default then foreign_default ∷ [] else [] in
    if is_empty node.user
    then (conf1, complaints)
    else if not (host.has_user node.user)
    then (conf1, complaints ++ unknown_user ∷ [])
    else (
      record conf1 {
        managed_logger_user_map = assign_user node.user ids conf.managed_logger_user_map;
      },
      complaints,
    )

unfoldable pub after_key : Host → ClientNode → Configuration → Configuration × List ClientComplaint
unfolding collect_loggers with_loggers
after_key host node conf = elim node.loggers [
  | none ↦ (conf, if is_empty node.default_logger then [] else foreign_default ∷ [])
  | some ids ↦
      let (set, complaints) = collect_loggers conf [] ids in
      let (conf', more) = with_loggers host node set conf in (conf', complaints ++ more)
]

unfoldable pub load_client :
    Host → Bool → ClientNode → Configuration → Configuration × List ClientComplaint
unfolding refusal take_in after_key
load_client host via_url node conf = elim (refusal host node conf) [
  | some complaint ↦ (conf, complaint ∷ [])
  | none ↦ elim (host.contents (host.resolve node.public_key)) [
    | none ↦ (conf, unreadable_file ∷ [])
    | some key ↦
        let (conf', more) =
          after_key host node (take_in via_url node (host.resolve node.public_key) key conf) in
        (
          conf',
          (if not (is_size node.key_size) && not (node.key_size == 0)
                then bad_key_size ∷ []
                else [])
              ++ more,
        )
  ]
]

unfoldable pub load_managed_clients :
    Host → Bool → List ClientNode → Configuration → Configuration × List ClientComplaint
unfolding load_client
load_managed_clients host via_url [] conf = (conf, [])
load_managed_clients host via_url (node ∷ nodes) conf =
    let (conf1, complaints) = load_client host via_url node conf in
    let (conf2, more) = load_managed_clients host via_url nodes conf1 in (conf2, complaints ++ more)
