-- ===== src/Core/Configuration/Settings/Tests.antt =====
-- The tests that the complaints on a configuration (src/core/configuration.cc) amount to.
use residue.Core.Configuration.{value_or}
use residue.Core.Configuration.Flag
use residue.Core.Configuration.ServerRsa.{
  Machine, Complaint, complain_if, flag_set, load_rsa, verify_key_pair,
  resolve_residue_home_env_var,
}
use residue.Core.Configuration.Settings.{
  Settings, Later, is_positive, contains, mode_complaints, required_complaints, load_settings,
  load_from_input,
}
use residue.Core.JsonDoc.{JsonDoc, is_valid, get_string}
use residue.Prelude.Map
use residue.Prelude.Map.{Map}
use residue.Prelude.{
  ℕ, ◌≡◌, refl, ap, ◌∙◌, Bool, true, false, not, ◌&&◌, ◌||◌, List, [], ◌∷◌, ◌++◌, arith, ltb, leb,
  ◌==◌, length, Text, codes, text_eq, is_empty,
}

is_empty-append {ℓ} :
    {A : Type ℓ} (xs ys : List A) → is_empty (xs ++ ys) ≡ (is_empty xs && is_empty ys)
is_empty-append [] ys = refl
is_empty-append (x ∷ xs) ys = refl

is_empty-complain_if : (b : Bool) (c : Complaint) → is_empty (complain_if b c) ≡ not b
is_empty-complain_if true c = refl
is_empty-complain_if false c = refl

-- The user can read and write the files, and others can neither write nor execute them.
abbrev pub is_safe_mode : ℕ → Bool
is_safe_mode mode =
    flag_set mode 256 && flag_set mode 128 && not (flag_set mode 2) && not (flag_set mode 1)

mode_complaints_lem : (mode : ℕ) → is_empty (mode_complaints mode) ≡ is_safe_mode mode
mode_complaints_lem mode = ground arith

-- The three names are there, and that of the archive is another one than that of the file, with no
-- separator in it.
abbrev pub are_good_names : Text → Text → Text → Bool
are_good_names directory filename compressed =
    not (is_empty directory)
    && (not (is_empty filename)
        && (not (is_empty compressed)
            && not (text_eq compressed filename)
            && not (contains compressed (codes "/"))
            && not (contains compressed (codes "\\"))))

-- There is an RSA key pair, or connections need none.
unfoldable pub is_good_rsa : Machine → JsonDoc → Bool → Bool
is_good_rsa machine doc allows_insecure =
    let private_file = get_string doc (codes "server_rsa_private_key") [] in
    let public_file = get_string doc (codes "server_rsa_public_key") [] in
    let secret = machine.base16_decode (get_string doc (codes "server_rsa_secret") []) in
    let private_path = resolve_residue_home_env_var machine private_file in
    let public_path = resolve_residue_home_env_var machine public_file in
    is_empty private_file && allows_insecure
    || not (is_empty private_file)
      && not (is_empty public_file)
      && machine.file_exists private_path
      && machine.file_exists public_path
      && verify_key_pair machine (machine.contents private_path) (machine.contents public_path)
          secret

load_rsa_lem :
    (machine : Machine) (doc : JsonDoc) (allows_insecure : Bool)
    → is_empty (load_rsa machine doc allows_insecure).1 ≡ is_good_rsa machine doc allows_insecure
unfolding load_rsa is_good_rsa
load_rsa_lem machine doc allows_insecure = ground arith

abbrev pub are_good_ports : Settings → Bool
are_good_ports s =
    is_positive s.admin_port && is_positive s.connect_port && is_positive s.logging_port

abbrev pub is_key_size : ℕ → Bool
is_key_size n = n == 128 || n == 192 || n == 256

-- The loggers that the server needs have a configuration file.
abbrev pub has_required : Map Text → Bool
has_required configurations =
    not (is_empty (value_or (Map.find configurations (codes "default")) []))
    && not (is_empty (value_or (Map.find configurations (codes "residue")) []))

abbrev pub are_good : Machine → JsonDoc → Settings → Bool
are_good machine doc s =
    are_good_ports s
    && (length s.server_key == 64
        && (is_good_rsa machine doc (flag_set s.flag Flag.allow_insecure_connection)
            && (are_good_names s.archived_log_directory s.archived_log_filename
                  s.archived_log_compressed_filename
                && (is_key_size s.default_key_size
                    && (is_safe_mode s.file_mode
                        && (leb 5 s.max_items_in_bulk && leb s.max_items_in_bulk 500))))))

key_size_complaints_lem :
    (n : ℕ) → not (not (n == 128) && not (n == 192) && not (n == 256)) ≡ is_key_size n
key_size_complaints_lem n = ground arith

not-ltb : (a b : ℕ) → not (ltb a b) ≡ leb b a
not-ltb a b = ground arith

required_complaints_lem :
    (configurations : Map Text)
    → is_empty (required_complaints configurations) ≡ has_required configurations
required_complaints_lem configurations = ground arith

not_or : (a b : Bool) → not (a || b) ≡ (not a && not b)
not_or true b = refl
not_or false b = refl

not-not : (b : Bool) → not (not b) ≡ b
not-not true = refl
not-not false = refl

load_settings_complaints :
    (machine : Machine) (doc : JsonDoc)
    → is_empty (load_settings machine doc).1 ≡ are_good machine doc (load_settings machine doc).0
unfolding load_settings
load_settings_complaints machine doc =
    simp
      (
        is_empty-append,
        is_empty-complain_if,
        not-not,
        load_rsa_lem machine doc _,
        not_or,
        key_size_complaints_lem,
        mode_complaints_lem,
        not-ltb,
      )
      refl

pub is_valid-load_from_input :
    (machine : Machine) (doc : JsonDoc) (later : Later) (before : Settings)
    → is_valid doc ≡ true
    → (load_from_input machine doc later before).is_valid ≡ (
        are_good machine doc (load_from_input machine doc later before).settings
        && has_required later.configurations
        && later.is_clean)
unfolding load_from_input
is_valid-load_from_input machine doc later before parses =
    let loaded = load_settings machine doc in
    let required = required_complaints later.configurations in
    let counted : is_empty (loaded.1 ++ required)
        ≡ (are_good machine doc loaded.0 && has_required later.configurations) =
      is_empty-append loaded.1 required
      ∙ ap (λ b. b && is_empty required) (load_settings_complaints machine doc)
      ∙ ap (λ b. are_good machine doc loaded.0 && b)
          (required_complaints_lem later.configurations) in
    rw parses (ap (λ b. b && later.is_clean) counted)
