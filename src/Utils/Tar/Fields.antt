-- ===== src/Utils/Tar/Fields.antt =====
-- The fields of a header that `Tar` (src/utils/tar.cc) has filled in.
use residue.Utils.Tar.{
  Header, name_at, size_at, checksum_at, typeflag_at, magic_at, version_at, uname_at, gname_at,
  mode_at, mtime_at, store, octal, Env, set_uname, initialize, checksum, set_size_in_archive,
  set_filename_in_archive, clear_typeflag, header_of,
}
use residue.Utils.Tar.Memory.{
  store_before, store_behind, store_at, IsBytes, IsByte, store-IsBytes, sum_bytes-tabulate,
}
use residue.Utils.Tar.Octal.{pow8, length-octal, octal-IsByte}
use residue.Prelude.{
  get_or, ℕ, zero, suc, ◌+◌, ◌≤◌, ◌<◌, ◌≡◌, refl, ◌∙◌, ◌≢◌, false, Option, none, some, [], ◌∷◌,
  arith, ◌==◌, length, take, All, Text, codes, is_empty, if_cases,
}

abbrev login_of : Option Text → Text
login_of none = []
login_of (some s) = s

-- A clock that eleven octal digits can tell, and a login name of bytes.
abbrev pub IsEnv : Env → Type 0
IsEnv env = (env.time < pow8 11) × All IsByte (login_of env.login)

-- A name that a header can hold.
abbrev pub IsName : Text → Type 0
IsName name = (name ≢ []) × (length name < 100) × All (λ c. (0 < c) × (c < 256)) name

pub is_empty-IsName : (name : Text) → name ≢ [] → is_empty name ≡ false
is_empty-IsName [] ne = absurd (ne refl)
is_empty-IsName (c ∷ name) ne = refl

bytes_of_name : (name : Text) → All (λ c. (0 < c) × (c < 256)) name → All IsByte name
bytes_of_name [] h = tt
bytes_of_name (c ∷ name) h = (h.0.1, bytes_of_name name h.1)

-- The header before the checksum is set.
pub sized : Env → Text → ℕ → Header
sized env name len =
    set_size_in_archive len (clear_typeflag (set_filename_in_archive name (initialize env)))

pub header_of-sized :
    (env : Env) (name : Text) (len : ℕ)
    → header_of env name len
      ≡ store checksum_at (octal 6 (checksum (sized env name len))) (sized env name len)
unfolding header_of sized
header_of-sized env name len = refl

set_uname-IsBytes :
    (o : Option Text) (h : Header) → All IsByte (login_of o) → IsBytes h → IsBytes (set_uname o h)
set_uname-IsBytes none h bytes rest = rest
set_uname-IsBytes (some s) h bytes rest =
    store-IsBytes uname_at (take 31 s) h (take-IsByte 31 s bytes) rest
  where
    take-IsByte : (n : ℕ) (t : Text) → All IsByte t → All IsByte (take n t)
    take-IsByte zero t h = tt
    take-IsByte (suc n) [] h = tt
    take-IsByte (suc n) (c ∷ t) h = (h.0, take-IsByte n t h.1)

initialize-IsBytes : (env : Env) → All IsByte (login_of env.login) → IsBytes (initialize env)
unfolding initialize
initialize-IsBytes env login = store-IsBytes gname_at (codes "users") _ (omega arith) (
    set_uname-IsBytes env.login _ login (
      store-IsBytes mode_at (octal 7 420) _ (octal-IsByte 7 420) (
        store-IsBytes mtime_at (octal 11 env.time) _ (octal-IsByte 11 env.time) (
          store-IsBytes version_at (codes " ") _ (omega arith)
            (store-IsBytes magic_at (codes "ustar") _ (omega arith) (λ i. omega arith))))))

module _ (env : Env) (name : Text) (len : ℕ) (is_env : IsEnv env) (is_name : IsName name)
    (fits : len < pow8 11) where
  abbrev typed : Header
  typed = clear_typeflag (set_filename_in_archive name (initialize env))

  named :
      (i : ℕ)
      → set_filename_in_archive name (initialize env) i ≡ store name_at name (initialize env) i
  unfolding set_filename_in_archive
  named i = ground (arith, is_empty-IsName name is_name.0)

  typed_named : (i : ℕ) → i ≢ typeflag_at → typed i ≡ store name_at name (initialize env) i
  typed_named i other = ground (arith, named i)

  pub sized_name : (i : ℕ) → i ≤ length name → sized env name len (name_at + i) ≡ get_or 0 name i
  unfolding sized set_size_in_archive
  sized_name i le =
      store_before size_at (octal 11 len) typed (name_at + i) (omega (arith, is_name.1))
      ∙ (typed_named (name_at + i) (λ e. omega (arith, is_name.1))
          ∙ store_at name_at name (initialize env) i le)

  pub sized_size : (i : ℕ) → i < 11 → sized env name len (size_at + i) ≡ get_or 0 (octal 11 len) i
  unfolding sized set_size_in_archive
  sized_size i lt =
      store_at size_at (octal 11 len) typed i
        (omega (arith, length-octal 11 len (omega arith) fits))

  abbrev magic : Header
  magic = store version_at (codes " ") (store magic_at (codes "ustar") (λ i. 0))

  abbrev mode : Header
  mode = store mode_at (octal 7 420) (store mtime_at (octal 11 env.time) magic)

  uname_magic :
      (o : Option Text) (i : ℕ) → i < 5 → set_uname o mode (magic_at + i) ≡ mode (magic_at + i)
  uname_magic none i lt = refl
  uname_magic (some s) i lt = store_before uname_at (take 31 s) mode (magic_at + i) (omega arith)

  initialize_magic : (i : ℕ) → i < 5 → initialize env (magic_at + i) ≡ get_or 0 (codes "ustar") i
  unfolding initialize
  initialize_magic i lt =
      store_before gname_at (codes "users") (set_uname env.login mode) (magic_at + i) (omega arith)
      ∙ (uname_magic env.login i lt
          ∙ (store_behind mode_at (octal 7 420) (store mtime_at (octal 11 env.time) magic)
                (magic_at + i) (omega (arith, length-octal 7 420 (omega arith) (omega arith)))
              ∙ (store_behind mtime_at (octal 11 env.time) magic (magic_at + i)
                    (omega (arith, length-octal 11 env.time (omega arith) is_env.0))
                  ∙ (store_before version_at (codes " ") (store magic_at (codes "ustar") (λ i. 0))
                        (magic_at + i) (omega arith)
                      ∙ store_at magic_at (codes "ustar") (λ i. 0) i (omega arith)))))

  pub sized_magic : (i : ℕ) → i < 5 → sized env name len (magic_at + i) ≡ get_or 0 (codes "ustar") i
  unfolding sized set_size_in_archive
  sized_magic i lt =
      store_behind size_at (octal 11 len) typed (magic_at + i)
        (omega (arith, length-octal 11 len (omega arith) fits))
      ∙ (typed_named (magic_at + i) (λ e. omega arith)
          ∙ (store_behind name_at name (initialize env) (magic_at + i) (omega (arith, is_name.1))
              ∙ initialize_magic i lt))

  typed-IsBytes : IsBytes typed
  typed-IsBytes i =
      if_cases (λ c. c < 256) (i == typeflag_at) 0 (set_filename_in_archive name (initialize env) i)
        (λ _. omega arith) (λ other. rw (named i) (named-IsBytes i))
    where
      named-IsBytes : IsBytes (store name_at name (initialize env))
      named-IsBytes =
          store-IsBytes name_at name (initialize env) (bytes_of_name name is_name.2)
            (initialize-IsBytes env is_env.1)

  sized-IsBytes : IsBytes (sized env name len)
  unfolding sized set_size_in_archive
  sized-IsBytes = store-IsBytes size_at (octal 11 len) typed (octal-IsByte 11 len) typed-IsBytes

  pub checksum-lt : checksum (sized env name len) < pow8 6
  unfolding checksum
  checksum-lt = omega (
    arith,
    sum_bytes-tabulate checksum_at 0 (sized env name len) sized-IsBytes,
    sum_bytes-tabulate 356 typeflag_at (sized env name len) sized-IsBytes,
  )
