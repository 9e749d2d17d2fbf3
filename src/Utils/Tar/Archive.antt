-- ===== src/Utils/Tar/Archive.antt =====
-- The archives of `Utils::archiveFiles` (src/utils/utils.cc, tar.cc) can be unpacked.
use residue.Utils.Tar.{
  Env, tabulate, header_of, header_size, Tar, delimiter, add_delimiter, File, put_file, put_files,
  archive_files,
}
use residue.Utils.Tar.Octal.{pow8}
use residue.Utils.Tar.Fields.{IsEnv, IsName, is_empty-IsName}
use residue.Utils.Tar.Reader.{
  padding, extract, extract_end, extract_entry, size_of-block, name_of-block, is_header-block,
  drop-block,
}
use residue.Prelude.{
  take-append, drop-append, drop-append_more, ℕ, zero, suc, ◌+◌, ◌≤◌, ◌<◌, ◌≡◌, refl, sym, ap, ◌∙◌,
  true, false, some, List, [], ◌∷◌, ◌++◌, append_assoc, arith, length, drop, replicate, All, Text,
}

-- A name and a content below 8 GiB.
abbrev pub IsEntry : Text × Text → Type 0
IsEntry e = IsName e.0 × (length e.1 < pow8 11)

-- Files that can be opened, and do not change while they are read.
abbrev pub files_of : List (Text × Text) → List (File × Text)
files_of [] = []
files_of ((name, content) ∷ es) = (some (length content, content), name) ∷ files_of es

length-delimiter : (fuel len : ℕ) → padding len ≤ fuel → length (delimiter fuel len) ≡ padding len
unfolding delimiter padding
length-delimiter zero len h = omega arith
length-delimiter (suc fuel) len h = ground (arith, length-delimiter fuel (len + 1))

padding-le : (len : ℕ) → padding len ≤ header_size
unfolding padding
padding-le len = omega arith

past_content :
    (content rest : Text)
    → drop
        (length content + padding (length content))
        (content ++ (delimiter header_size (length content) ++ rest))
      ≡ rest
past_content content rest =
    let len = length content in
    let filler = delimiter header_size len in
    drop-append_more (padding len) content (filler ++ rest)
    ∙ (ap (λ (n : ℕ). drop n (filler ++ rest))
          (sym (length-delimiter header_size len (padding-le len)))
        ∙ drop-append filler rest)

module _ (env : Env) where
  -- What the entries are in the archive, with a rest behind them.
  blocks : List (Text × Text) → Text → Text
  blocks [] rest = rest
  blocks ((name, content) ∷ es) rest =
      tabulate header_size 0 (header_of env name (length content))
      ++ (content ++ (delimiter header_size (length content) ++ blocks es rest))

  out-put_files :
      (es : List (Text × Text)) (tar : Tar) (rest : Text)
      → ((put_files env (files_of es) tar).0.out ++ rest ≡ tar.out ++ blocks es rest)
        × ((put_files env (files_of es) tar).1 ≡ true)
  unfolding put_files put_file add_delimiter blocks
  out-put_files [] tar rest = (refl, refl)
  out-put_files ((name, content) ∷ es) tar rest =
      let header = tabulate header_size 0 (header_of env name (length content)) in
      let filler = delimiter header_size (length content) in
      let tar1 = record tar { out = ((tar.out ++ header) ++ content) ++ filler } in
      let (written, fine) = out-put_files es tar1 rest in
      (
        written
            ∙ (append_assoc ((tar.out ++ header) ++ content) filler (blocks es rest)
                ∙ (append_assoc (tar.out ++ header) content (filler ++ blocks es rest)
                    ∙ append_assoc tar.out header (content ++ (filler ++ blocks es rest)))),
        fine,
      )

  extract-blocks :
      (is_env : IsEnv env) (es : List (Text × Text)) (rest : Text)
      → All IsEntry es
      → extract (suc (length es)) (blocks es (0 ∷ rest)) ≡ some es
  unfolding blocks
  extract-blocks is_env [] rest entries = extract_end 0 rest
  extract-blocks is_env ((name, content) ∷ es) rest ((is_name, fits), entries) =
      let filler = delimiter header_size (length content) in
      let behind = content ++ (filler ++ blocks es (0 ∷ rest)) in
      let block = tabulate header_size 0 (header_of env name (length content)) ++ behind in
      let named = name_of-block env name (length content) is_env is_name fits behind in
      let sized = size_of-block env name (length content) is_env is_name fits behind in
      let dropped = drop-block env name (length content) is_env is_name fits behind in
      extract_entry (suc (length es)) block es (rw named (is_empty-IsName name is_name.0))
        (is_header-block env name (length content) is_env is_name fits behind)
        (rw (sized, dropped)
          (rw (past_content content (blocks es (0 ∷ rest)))
            (extract-blocks is_env es rest entries)))
      ∙ rw (named, sized, dropped, take-append content (filler ++ blocks es (0 ∷ rest))) refl

-- An archive of files, with names that fit and contents below 8 GiB, that can be read whole is
-- written without a failure, and a reader of the format, which checks each header's magic and
-- checksum, finds in it the names and the contents of the files in their order.
pub extract-archive_files :
    (env : Env) (es : List (Text × Text))
    → IsEnv env
    → All IsEntry es
    → (extract (suc (length es)) (archive_files env true (files_of es)).0 ≡ some es)
      × ((archive_files env true (files_of es)).1 ≡ true)
unfolding archive_files
extract-archive_files env es is_env entries =
    let start : Tar = record { finished = false; out = [] } in
    let (written, fine) = out-put_files env es start (0 ∷ replicate 1023 0) in
    (
      ap (extract (suc (length es))) written
          ∙ extract-blocks env is_env es (replicate 1023 0) entries,
      fine,
    )
