-- ===== src/Core/Configuration/Settings/Complete.antt =====
-- What a configuration needs to be valid (src/core/configuration.cc), apart from how the program
-- looks for it.
use Prim.Native.Nat.{bit_and, bit_or}
use residue.Core.Configuration.Flag
use residue.Core.Configuration.ServerRsa.{
  Machine, flag_set, load_flags, verify_key_pair, resolve_residue_home_env_var,
}
use residue.Core.Configuration.Settings.{Settings, is_positive, contains}
use residue.Core.JsonDoc.{JsonDoc, get_bool, get_string}
use residue.Utils.Templates.{find, find_in, starts_with}
use residue.Prelude.{
  ℕ, ◌^◌, ◌≤◌, ◌<◌, ◌≡◌, refl, sym, ◌≢◌, ◌↔◌, ◌⊎◌, inl, inr, Bool, true, false, not, ◌&&◌, ◌||◌,
  Option, none, some, [], ◌∷◌, arith, ◌==◌, if◌then◌else◌, Option-cases, length, All, Text, codes,
  text_eq_iff, is_empty,
}

-- The `int` is positive.
abbrev pub IsPort : ℕ → Type 0
IsPort n = (0 < n) × (n < 2 ^ 31)

-- No byte of the name separates directories.
abbrev pub IsPlainName : Text → Type 0
IsPlainName s = All (λ c. c ≢ b'/') s × All (λ c. c ≢ b'\\') s

abbrev pub IsKeySize : ℕ → Type 0
IsKeySize n = (n ≡ 128) ⊎ ((n ≡ 192) ⊎ (n ≡ 256))

-- The bits of a file's mode: the user reads and writes, others neither write nor execute.
abbrev pub IsSafeMode : ℕ → Type 0
IsSafeMode mode =
    (bit_and mode 256 ≢ 0) × (bit_and mode 128 ≢ 0) × (bit_and mode 2 ≡ 0) × (bit_and mode 1 ≡ 0)

-- The public key encrypts a text that the private key decrypts to the same text.
abbrev pub IsKeyPair : Machine → Text → Text → Text → Type 0
IsKeyPair machine private_key public_key secret =
    (encr : Text) × (machine.rsa_encrypt (codes "test_rsa") public_key ≡ some encr)
    × (machine.rsa_decrypt encr private_key secret ≡ some (codes "test_rsa"))

-- No private key file is named, and connections need none; or the files of both keys are named and
-- there, and what they hold is a key pair.
abbrev pub IsRsaUsable : Machine → JsonDoc → Type 0
IsRsaUsable machine doc =
    let private_file = get_string doc (codes "server_rsa_private_key") [] in
    let public_file = get_string doc (codes "server_rsa_public_key") [] in
    let secret = machine.base16_decode (get_string doc (codes "server_rsa_secret") []) in
    let private_path = resolve_residue_home_env_var machine private_file in
    let public_path = resolve_residue_home_env_var machine public_file in
    ((private_file ≡ []) × (get_bool doc (codes "allow_insecure_connection") true ≡ true))
    ⊎ ((private_file ≢ [])
        × (public_file ≢ [])
        × (machine.file_exists private_path ≡ true)
        × (machine.file_exists public_path ≡ true)
        × IsKeyPair machine (machine.contents private_path) (machine.contents public_path) secret)

-- All that a configuration needs, but for its loggers and clients.
pub record IsComplete (machine : Machine) (doc : JsonDoc) (s : Settings) : Type 0 where
  pub ports : IsPort s.admin_port × IsPort s.connect_port × IsPort s.logging_port
  pub key : length s.server_key ≡ 64
  pub rsa : IsRsaUsable machine doc
  pub directory : s.archived_log_directory ≢ []
  pub filename : s.archived_log_filename ≢ []
  pub compressed : s.archived_log_compressed_filename ≢ []
  pub distinct : s.archived_log_compressed_filename ≢ s.archived_log_filename
  pub plain : IsPlainName s.archived_log_compressed_filename
  pub key_size : IsKeySize s.default_key_size
  pub mode : IsSafeMode s.file_mode
  pub items : (5 ≤ s.max_items_in_bulk) × (s.max_items_in_bulk ≤ 500)

pub is_positive-IsPort : (n : ℕ) → (is_positive n ≡ true) ↔ IsPort n
is_positive-IsPort n = ground arith

pub key_size-IsKeySize : (n : ℕ) → ((n == 128 || n == 192 || n == 256) ≡ true) ↔ IsKeySize n
key_size-IsKeySize n = ground arith

pub flag_set_iff :
    (flag bit : ℕ) → bit_and 0 bit ≡ 0 → (flag_set flag bit ≡ true) ↔ (bit_and flag bit ≢ 0)
flag_set_iff flag bit h = ground (arith, h)

pub is_empty_iff : (s : Text) → (not (is_empty s) ≡ true) ↔ (s ≢ [])
is_empty_iff [] = ground arith
is_empty_iff (c ∷ s) = ground arith

is_none : Option ℕ → Bool
is_none none = true
is_none (some n) = false

find_in_byte : (c : ℕ) (s : Text) → (is_none (find_in (c ∷ []) s) ≡ true) ↔ All (λ d. d ≢ c) s
unfolding find_in starts_with is_none
find_in_byte c [] = (λ e. tt, λ h. refl)
find_in_byte c (d ∷ s) = ground (arith, find_in_byte c s)

pub contains_byte : (c : ℕ) (s : Text) → (not (contains s (c ∷ [])) ≡ true) ↔ All (λ d. d ≢ c) s
unfolding find is_none
contains_byte c s = ground (arith, find_in_byte c s)

pub verify_key_pair-IsKeyPair :
    (machine : Machine) (private_key public_key secret : Text)
    → (verify_key_pair machine private_key public_key secret ≡ true)
      ↔ IsKeyPair machine private_key public_key secret
unfolding verify_key_pair
verify_key_pair-IsKeyPair machine private_key public_key secret =
    elim (Option-cases (machine.rsa_encrypt (codes "test_rsa") public_key)) [
      | inl e ↦ (λ h. absurd (ground arith), λ (encr, f, _). absurd (ground arith))
      | inr (encr, e) ↦ elim (Option-cases (machine.rsa_decrypt encr private_key secret)) [
        | inl d ↦ (λ h. absurd (ground arith), λ (encr', f, g). absurd (ground arith))
        | inr (decr, d) ↦
            let at = text_eq_iff (codes "test_rsa") decr in
            (λ h. (encr, e, ground (arith, at)), λ (encr', f, g). ground (arith, at))
      ]
    ]

-- A test holds of both truth values.
every : (Bool → Bool) → Bool
every f = f true && f false

every_lem : (f : Bool → Bool) → every f ≡ true → (b : Bool) → f b ≡ true
unfolding every
every_lem f h true = ground arith
every_lem f h false = ground arith

abbrev same : Bool → Bool → Bool
same true b = b
same false b = not b

abbrev add : Bool → ℕ → ℕ → ℕ
add b added flag = if b then bit_or flag added else flag

abbrev insecure : Bool → Bool → Bool → Bool → Bool → Bool → Bool → Bool → Bool → Bool
insecure a b c d e f g h i =
    flag_set
      (add a Flag.enable_dynamic_buffer (
        add b Flag.requires_timestamp (
          add c Flag.immediate_flush (
            add d Flag.allow_bulk_log_request (
              add e Flag.allow_unmanaged_clients (
                add f Flag.compression (
                  add g Flag.allow_insecure_connection
                    (add h Flag.allow_unmanaged_loggers (add i Flag.enable_cli 0)))))))))
      Flag.allow_insecure_connection

insecure_checked :
    every (λ a. every (λ b. every (λ c. every (λ d. every (λ e.
      every (λ f. every (λ g. every (λ h. every (λ i. same g (insecure a b c d e f g h i))))))))))
    ≡ true
unfolding every
insecure_checked = refl

same_lem : (a b : Bool) → same a b ≡ true → a ≡ b
same_lem true b h = sym h
same_lem false b h = ground arith

pub allow_insecure_lem :
    (doc : JsonDoc)
    → flag_set (load_flags doc) Flag.allow_insecure_connection
      ≡ get_bool doc (codes "allow_insecure_connection") true
unfolding load_flags
allow_insecure_lem doc = sym (
    same_lem _ _ (
      every_lem _
        (every_lem _
          (every_lem _
            (every_lem _
              (every_lem _
                (every_lem _
                  (every_lem _
                    (every_lem _
                      (every_lem _ insecure_checked
                        (get_bool doc (codes "enable_dynamic_buffer") false))
                      (get_bool doc (codes "requires_timestamp") true))
                    (get_bool doc (codes "immediate_flush") true))
                  (get_bool doc (codes "allow_bulk_log_request") true))
                (get_bool doc (codes "allow_unmanaged_clients") true))
              (get_bool doc (codes "compression") true))
            (get_bool doc (codes "allow_insecure_connection") true))
          (get_bool doc (codes "allow_unmanaged_loggers") true))
        (get_bool doc (codes "enable_cli") true)))
