-- ===== src/Utils/Tar/Reader.antt =====
-- A reader of archives, by the description of the ustar format, and what it finds in a header that
-- `Tar` (src/utils/tar.cc) has written.
use mathlib.Core.Option
use residue.Utils.Tar.{
  Header, name_at, size_at, checksum_at, typeflag_at, magic_at, octal, Env, tabulate, sum_bytes,
  checksum, header_of, header_size,
}
use residue.Utils.Tar.Memory.{
  store_before, store_behind, store_at, tabulate-ext, tabulate-text, slice-tabulate, drop-tabulate,
}
use residue.Utils.Tar.Octal.{pow8, read_octal, read_octal-octal, length-octal}
use residue.Utils.Tar.Fields.{
  IsEnv, IsName, sized, header_of-sized, sized_name, sized_size, sized_magic, checksum-lt,
}
use residue.Prelude.{
  get_or, ℕ, zero, suc, ◌+◌, ◌-◌, ◌%◌, ◌≤◌, ◌<◌, ◌≡◌, refl, sym, ap, ◌∙◌, ◌⊎◌, inl, inr, Bool, true,
  false, ◌&&◌, Option, none, some, List, [], ◌∷◌, ◌++◌, arith, ◌==◌, if◌then◌else◌, ==_iff, length,
  take, drop, All, Text, codes, text_eq, text_eq_refl, is_empty,
}

-- A field of a block: `n` bytes from an offset on.
unfoldable pub field : ℕ → ℕ → Text → Text
field n at block = take n (drop at block)

abbrev pub until_zero : Text → Text
until_zero [] = []
until_zero (c ∷ cs) = if c == 0 then [] else c ∷ until_zero cs

unfoldable pub name_of : Text → Text
name_of block = until_zero (field 100 name_at block)

unfoldable pub size_of : Text → ℕ
size_of block = read_octal 0 (field 11 size_at block)

-- The magic is there, and the checksum is that of the block with blanks in its place.
unfoldable pub is_header : Text → Bool
is_header block =
    text_eq (field 5 magic_at block) (codes "ustar")
    && (read_octal 0 (field 6 checksum_at block)
        == sum_bytes (field checksum_at 0 block) + 256 + sum_bytes (field 356 typeflag_at block))

-- The bytes that fill the last block of a content.
unfoldable pub padding : ℕ → ℕ
padding len = (512 - len % 512) % 512

-- The names and contents in an archive, each entry for one unit of fuel, up to a header without a
-- name; `none` for what is no header.
unfoldable pub extract : ℕ → Text → Option (List (Text × Text))
extract zero bytes = none
extract (suc fuel) bytes =
    let len = size_of bytes in
    let content = drop header_size bytes in
    let rest = extract fuel (drop (len + padding len) content) in
    if is_empty (name_of bytes)
    then some []
    else if is_header bytes
    then Option.map (λ (entries : List (Text × Text)). (name_of bytes, take len content) ∷ entries)
        rest
    else none

pub extract_end : (fuel : ℕ) (rest : Text) → extract (suc fuel) (0 ∷ rest) ≡ some []
unfolding extract name_of field
extract_end fuel rest = refl

pub extract_entry :
    (fuel : ℕ) (bytes : Text) (es : List (Text × Text))
    → is_empty (name_of bytes) ≡ false
    → is_header bytes ≡ true
    → extract fuel (drop (size_of bytes + padding (size_of bytes)) (drop header_size bytes))
      ≡ some es
    → extract (suc fuel) bytes
      ≡ some ((name_of bytes, take (size_of bytes) (drop header_size bytes)) ∷ es)
unfolding extract
extract_entry fuel bytes es named header rest = rw (named, header, rest) refl

until_zero-tabulate :
    (t : Text) (at m : ℕ) (g : Header)
    → All (λ c. (0 < c) × (c < 256)) t
    → ((i : ℕ) → i ≤ length t → g (at + i) ≡ get_or 0 t i)
    → until_zero (tabulate (length t + suc m) at g) ≡ t
unfolding tabulate
until_zero-tabulate [] at m g letters holds =
    let e : 0 + suc m ≡ suc m = omega arith in
    let e0 : at ≡ at + 0 = omega arith in
    let ends : g at ≡ 0 = ap g e0 ∙ holds 0 (omega arith) in rw (e, ends) refl
until_zero-tabulate (c ∷ t) at m g letters holds =
    let e : suc (length t) + suc m ≡ suc (length t + suc m) = omega arith in
    let e0 : at ≡ at + 0 = omega arith in
    let first : g at ≡ c = ap g e0 ∙ holds 0 (omega arith) in
    let rest = until_zero-tabulate t (suc at) m g letters.1 (λ i le.
      let s : suc at + i ≡ at + suc i = omega arith in ap g s ∙ holds (suc i) (omega arith)) in
    rw (e, first) (ground (arith, rest, letters.0))

module _ (env : Env) (name : Text) (len : ℕ) (is_env : IsEnv env) (is_name : IsName name)
    (fits : len < pow8 11) (rest : Text) where
  abbrev sum : ℕ
  sum = checksum (sized env name len)

  length-sum : length (octal 6 sum) ≡ 6
  length-sum = length-octal 6 sum (omega arith) (checksum-lt env name len is_env is_name fits)

  -- The header is as it was before the checksum, but for that.
  beside :
      (i : ℕ)
      → (i < checksum_at) ⊎ (checksum_at + 6 < i)
      → header_of env name len i ≡ sized env name len i
  beside i (inl before) =
      ap (λ (h : Header). h i) (header_of-sized env name len)
      ∙ store_before checksum_at (octal 6 sum) (sized env name len) i before
  beside i (inr behind) =
      ap (λ (h : Header). h i) (header_of-sized env name len)
      ∙ store_behind checksum_at (octal 6 sum) (sized env name len) i (omega (arith, length-sum))

  abbrev block : Text
  block = tabulate header_size 0 (header_of env name len) ++ rest

  field-block :
      (n k : ℕ) → k + n ≤ header_size → field n k block ≡ tabulate n k (header_of env name len)
  unfolding field
  field-block n k le =
      let m = header_size - (k + n) in
      let e : header_size ≡ k + (n + m) = omega arith in
      let e0 : 0 + k ≡ k = omega arith in
      ap (λ (s : ℕ). take n (drop k (tabulate s 0 (header_of env name len) ++ rest))) e
      ∙ (slice-tabulate n k m 0 (header_of env name len) rest
          ∙ ap (λ (a : ℕ). tabulate n a (header_of env name len)) e0)

  -- A text in a field of its length.
  field-text :
      (t : Text) (k : ℕ)
      → k + length t ≤ header_size
      → ((i : ℕ) → i < length t → header_of env name len (k + i) ≡ get_or 0 t i)
      → field (length t) k block ≡ t
  field-text t k le holds = field-block (length t) k le ∙ tabulate-text t k _ holds

  pub size_of-block : size_of block ≡ len
  unfolding size_of
  size_of-block =
      let e = length-octal 11 len (omega arith) fits in
      ap (λ (n : ℕ). read_octal 0 (field n size_at block)) (sym e)
      ∙ (ap (read_octal 0) (
            field-text (octal 11 len) size_at (omega (arith, e)) (λ i lt.
              beside (size_at + i) (inl (omega (arith, e)))
              ∙ sized_size env name len is_env is_name fits i (omega (arith, e))))
          ∙ read_octal-octal 11 len)

  pub name_of-block : name_of block ≡ name
  unfolding name_of
  name_of-block =
      let m = 99 - length name in
      let e : 100 ≡ length name + suc m = omega (arith, is_name.1) in
      ap until_zero (field-block 100 name_at (omega arith))
      ∙ (ap (λ (n : ℕ). until_zero (tabulate n name_at (header_of env name len))) e
          ∙ until_zero-tabulate name name_at m (header_of env name len) is_name.2 (λ i le.
            beside (name_at + i) (inl (omega (arith, is_name.1)))
            ∙ sized_name env name len is_env is_name fits i le))

  pub is_header-block : is_header block ≡ true
  unfolding is_header checksum
  is_header-block =
      both (rw magic (text_eq_refl (codes "ustar"))) ((==_iff _ _).1 (told ∙ sym summed))
    where
      both : {a b : Bool} → a ≡ true → b ≡ true → (a && b) ≡ true
      both p q = ground arith

      magic : field 5 magic_at block ≡ codes "ustar"
      magic = field-text (codes "ustar") magic_at (omega arith) (λ i lt.
          beside (magic_at + i) (inr (omega arith))
          ∙ sized_magic env name len is_env is_name fits i lt)

      told : read_octal 0 (field 6 checksum_at block) ≡ sum
      told =
          ap (λ (n : ℕ). read_octal 0 (field n checksum_at block)) (sym length-sum)
          ∙ (ap (read_octal 0) (
                field-text (octal 6 sum) checksum_at (omega (arith, length-sum)) (λ i lt.
                  ap (λ (h : Header). h (checksum_at + i)) (header_of-sized env name len)
                  ∙ store_at checksum_at (octal 6 sum) (sized env name len) i (omega (arith, lt))))
              ∙ read_octal-octal 6 sum)

      head :
          sum_bytes (field checksum_at 0 block)
          ≡ sum_bytes (tabulate checksum_at 0 (sized env name len))
      head = ap sum_bytes (
          field-block checksum_at 0 (omega arith)
          ∙ tabulate-ext checksum_at 0 _ _ (λ i a b. beside i (inl (omega arith))))

      tail :
          sum_bytes (field 356 typeflag_at block)
          ≡ sum_bytes (tabulate 356 typeflag_at (sized env name len))
      tail = ap sum_bytes (
          field-block 356 typeflag_at (omega arith)
          ∙ tabulate-ext 356 typeflag_at _ _ (λ i a b. beside i (inr (omega arith))))

      summed :
          sum_bytes (field checksum_at 0 block) + 256 + sum_bytes (field 356 typeflag_at block)
          ≡ sum
      summed = omega (arith, head, tail)

  pub drop-block : drop header_size block ≡ rest
  unfolding tabulate
  drop-block = drop-tabulate header_size 0 0 (header_of env name len) rest
