-- ===== src/Core/Configuration/Settings/Valid.antt =====
-- Which configurations are valid (src/core/configuration.cc).
use residue.Core.Configuration.{value_or}
use residue.Core.Configuration.Flag
use residue.Core.Configuration.ServerRsa.{
  Machine, flag_set, verify_key_pair, resolve_residue_home_env_var,
}
use residue.Core.Configuration.Settings.Complete.{
  IsPlainName, IsSafeMode, IsPort, IsKeyPair, IsRsaUsable, IsComplete, key_size-IsKeySize,
  flag_set_iff, is_empty_iff, contains_byte, verify_key_pair-IsKeyPair, allow_insecure_lem,
}
use residue.Core.Configuration.Settings.{Settings, Later, load_settings, load_from_input}
use residue.Core.JsonDoc.{JsonDoc, is_valid, get_bool, get_string}
use residue.Prelude.Map
use residue.Prelude.Map.{Map}
use residue.Prelude.{
  ℕ, ◌≤◌, ◌≡◌, refl, sym, ap, ◌∙◌, ◌≢◌, ◌↔◌, ◌⊎◌, Bool, true, not, ◌&&◌, ◌||◌, [], arith, leb, ◌==◌,
  ==_iff, length, Text, codes, text_eq_iff, is_empty,
}
use residue.Core.Configuration.Settings.Tests.{
  is_safe_mode, are_good_names, is_good_rsa, are_good_ports, is_key_size, are_good,
  is_valid-load_from_input,
}

rsa_cases :
    (private_file public_file : Text) (insecure private_there public_there verified : Bool)
    (P : Type 0)
    → (verified ≡ true) ↔ P
    → ((is_empty private_file && insecure
          || not (is_empty private_file)
            && not (is_empty public_file)
            && private_there
            && public_there
            && verified)
        ≡ true)
      ↔ (((private_file ≡ []) × (insecure ≡ true))
          ⊎ ((private_file ≢ [])
              × (public_file ≢ [])
              × (private_there ≡ true)
              × (public_there ≡ true)
              × P))
rsa_cases private_file public_file insecure private_there public_there verified P h =
    ground (arith, h, is_empty_iff private_file, is_empty_iff public_file)

is_good_rsa-IsRsaUsable :
    (machine : Machine) (doc : JsonDoc)
    → (is_good_rsa machine doc (get_bool doc (codes "allow_insecure_connection") true) ≡ true)
      ↔ IsRsaUsable machine doc
unfolding is_good_rsa
is_good_rsa-IsRsaUsable machine doc =
    let private_file = get_string doc (codes "server_rsa_private_key") [] in
    let public_file = get_string doc (codes "server_rsa_public_key") [] in
    let secret = machine.base16_decode (get_string doc (codes "server_rsa_secret") []) in
    let private_path = resolve_residue_home_env_var machine private_file in
    let public_path = resolve_residue_home_env_var machine public_file in
    rsa_cases private_file public_file (get_bool doc (codes "allow_insecure_connection") true)
      (machine.file_exists private_path) (machine.file_exists public_path)
      (verify_key_pair machine (machine.contents private_path) (machine.contents public_path)
        secret)
      (IsKeyPair machine (machine.contents private_path) (machine.contents public_path) secret)
      (verify_key_pair-IsKeyPair machine (machine.contents private_path)
        (machine.contents public_path) secret)

names_iff :
    (directory filename compressed : Text)
    → (are_good_names directory filename compressed ≡ true) ↔ (
        (directory ≢ [])
        × (filename ≢ [])
        × (compressed ≢ [])
        × (compressed ≢ filename)
        × IsPlainName compressed)
names_iff directory filename compressed = ground (
  arith,
  is_empty_iff directory,
  is_empty_iff filename,
  is_empty_iff compressed,
  text_eq_iff compressed filename,
  contains_byte b'/' compressed,
  contains_byte b'\\' compressed,
)

is_safe_mode-IsSafeMode : (mode : ℕ) → (is_safe_mode mode ≡ true) ↔ IsSafeMode mode
is_safe_mode-IsSafeMode mode = ground (
  arith,
  flag_set_iff mode 256 refl,
  flag_set_iff mode 128 refl,
  flag_set_iff mode 2 refl,
  flag_set_iff mode 1 refl,
)

items_iff : (n : ℕ) → ((leb 5 n && leb n 500) ≡ true) ↔ ((5 ≤ n) × (n ≤ 500))
items_iff n = ground arith

-- The tests of `are_good`, one by one.
all_true :
    (a b c d e f g : Bool)
    → ((a && (b && (c && (d && (e && (f && g)))))) ≡ true)
      ↔ ((a ≡ true) × (b ≡ true) × (c ≡ true) × (d ≡ true) × (e ≡ true) × (f ≡ true) × (g ≡ true))
all_true a b c d e f g = ground arith

ports_iff :
    (s : Settings)
    → (are_good_ports s ≡ true)
      ↔ (IsPort s.admin_port × IsPort s.connect_port × IsPort s.logging_port)
ports_iff s = ground arith

are_good-IsComplete :
    (machine : Machine) (doc : JsonDoc) (s : Settings)
    → flag_set s.flag Flag.allow_insecure_connection
      ≡ get_bool doc (codes "allow_insecure_connection") true
    → (are_good machine doc s ≡ true) ↔ IsComplete machine doc s
are_good-IsComplete machine doc s flag =
    let insecure = flag_set s.flag Flag.allow_insecure_connection in
    let directory = s.archived_log_directory in
    let filename = s.archived_log_filename in
    let compressed = s.archived_log_compressed_filename in
    let (apart, together) =
      all_true (are_good_ports s) (length s.server_key == 64) (is_good_rsa machine doc insecure)
        (are_good_names directory filename compressed) (is_key_size s.default_key_size)
        (is_safe_mode s.file_mode) (leb 5 s.max_items_in_bulk && leb s.max_items_in_bulk 500) in
    let (rsa_to, rsa_from) = is_good_rsa-IsRsaUsable machine doc in
    let (names_to, names_from) = names_iff directory filename compressed in
    let flagged = ap (is_good_rsa machine doc) flag in
    (
      λ h.
          let (ports, key, rsa, names, size, mode, items) = apart h in
          let (has_directory, has_filename, has_compressed, distinct, plain) = names_to names in
          record {
            ports = (ports_iff s).0 ports;
            key = (==_iff (length s.server_key) 64).0 key;
            rsa = rsa_to (sym flagged ∙ rsa);
            directory = has_directory;
            filename = has_filename;
            compressed = has_compressed;
            distinct = distinct;
            plain = plain;
            key_size = (key_size-IsKeySize s.default_key_size).0 size;
            mode = (is_safe_mode-IsSafeMode s.file_mode).0 mode;
            items = (items_iff s.max_items_in_bulk).0 items;
          },
      λ u. together (
        (ports_iff s).1 u.ports,
        (==_iff (length s.server_key) 64).1 u.key,
        flagged ∙ rsa_from u.rsa,
        names_from (u.directory, u.filename, u.compressed, u.distinct, u.plain),
        (key_size-IsKeySize s.default_key_size).1 u.key_size,
        (is_safe_mode-IsSafeMode s.file_mode).1 u.mode,
        (items_iff s.max_items_in_bulk).1 u.items,
      ),
    )

flag_of_settings :
    (machine : Machine) (doc : JsonDoc) (later : Later) (before : Settings)
    → is_valid doc ≡ true
    → flag_set
        (load_from_input machine doc later before).settings.flag
        Flag.allow_insecure_connection
      ≡ get_bool doc (codes "allow_insecure_connection") true
unfolding load_from_input load_settings
flag_of_settings machine doc later before parses = rw parses (allow_insecure_lem doc)

regroup :
    (a b c d : Bool)
    → ((a && (b && c) && d) ≡ true) ↔ ((a ≡ true) × (b ≡ true) × (c ≡ true) × (d ≡ true))
regroup a b c d = ground arith

-- A document that parses gives a valid configuration exactly if each port is positive as an `int`; the
-- server key has 64 bytes; no private key file is named and insecure connections are allowed, or else
-- the files of both RSA keys are named and there and the one key decrypts what the other encrypts; the
-- directory and the names of archives are there, and that of the compressed one is not the other and
-- has no slash and no backslash; the key size is 128, 192 or 256; by the bits of the file mode the user
-- reads and writes and others neither write nor execute; a bulk has from 5 to 500 items; the loggers
-- `default` and `residue` have a configuration; and the loading of the loggers and clients found
-- nothing to complain about.
pub load_from_input-IsComplete :
    (machine : Machine) (doc : JsonDoc) (later : Later) (before : Settings)
    → is_valid doc ≡ true
    → let loaded = load_from_input machine doc later before in
      (loaded.is_valid ≡ true) ↔ (
        IsComplete machine doc loaded.settings
        × (value_or (Map.find later.configurations (codes "default")) [] ≢ [])
        × (value_or (Map.find later.configurations (codes "residue")) [] ≢ [])
        × (later.is_clean ≡ true))
load_from_input-IsComplete machine doc later before parses =
    let loaded = load_from_input machine doc later before in
    let default_conf = value_or (Map.find later.configurations (codes "default")) [] in
    let residue_conf = value_or (Map.find later.configurations (codes "residue")) [] in
    let valid = is_valid-load_from_input machine doc later before parses in
    let (good_to, good_from) =
      are_good-IsComplete machine doc loaded.settings
        (flag_of_settings machine doc later before parses) in
    let (default_to, default_from) = is_empty_iff default_conf in
    let (residue_to, residue_from) = is_empty_iff residue_conf in
    let (apart, together) =
      regroup (are_good machine doc loaded.settings) (not (is_empty default_conf))
        (not (is_empty residue_conf)) later.is_clean in
    (
      λ h.
          let (good, has_default, has_residue, clean) = apart (sym valid ∙ h) in
          (good_to good, default_to has_default, residue_to has_residue, clean),
      λ (complete, has_default, has_residue, clean).
          valid
          ∙ together
              (good_from complete, default_from has_default, residue_from has_residue, clean),
    )
