-- ===== src/Utils/Tar.antt =====
-- `Tar` (src/utils/tar.h, tar.cc), which writes the archive of the rotated files, and
-- `Utils::archiveFiles` (src/utils/utils.cc).
--
-- A header is the memory of the struct: the byte at each of its 512 offsets. A string that is too
-- long for its field runs on into the next one, as it does in the program. Every write to the
-- archive's stream is taken: a write that fails, which the program does not look at, is not modelled.
pub mod Memory
pub mod Octal
pub mod Fields
pub mod Reader
pub mod Archive
use residue.Prelude.{
  get_or, ℕ, zero, suc, ◌+◌, ◌-◌, ◌*◌, ◌/◌, ◌%◌, Bool, true, false, not, ◌&&◌, ◌||◌, Option, none,
  some, List, [], ◌∷◌, ◌++◌, ltb, leb, ◌==◌, if◌then◌else◌, length, take, replicate, Text, codes,
  is_empty,
}

abbrev pub Header : Type 0
Header = ℕ → ℕ

-- The offsets of the fields.
abbrev pub name_at : ℕ
name_at = 0

abbrev pub mode_at : ℕ
mode_at = 100

abbrev pub size_at : ℕ
size_at = 124

abbrev pub mtime_at : ℕ
mtime_at = 136

abbrev pub checksum_at : ℕ
checksum_at = 148

abbrev pub typeflag_at : ℕ
typeflag_at = 156

abbrev pub magic_at : ℕ
magic_at = 257

abbrev pub version_at : ℕ
version_at = 263

abbrev pub uname_at : ℕ
uname_at = 265

abbrev pub gname_at : ℕ
gname_at = 297

-- `sizeof(Header)`.
abbrev pub header_size : ℕ
header_size = 512

-- `strcpy` or `sprintf` to an offset: the bytes and the null byte behind them.
unfoldable pub store : ℕ → Text → Header → Header
store at text header i =
    if leb at i && leb i (at + length text) then get_or 0 text (i - at) else header i

-- The octal digits of a number; there are no more of them than the fuel says.
pub octal_of : ℕ → ℕ → Text → Text
octal_of zero n acc = acc
octal_of (suc fuel) n acc =
    let rest = octal_of fuel (n / 8) ((n % 8 + b'0') ∷ acc) in
    if ltb n 8 then (n + b'0') ∷ acc else rest

-- `%0wo`.
unfoldable pub octal : ℕ → ℕ → Text
unfolding octal_of
octal width n =
    let digits = octal_of (suc n) n [] in replicate (width - length digits) b'0' ++ digits

-- `time(NULL)` and `getlogin`.
pub record Env : Type 0 where
  pub time : ℕ
  pub login : Option Text

abbrev pub set_uname : Option Text → Header → Header
set_uname none header = header
set_uname (some s) header = store uname_at (take 31 s) header

unfoldable pub initialize : Env → Header
unfolding store octal
initialize env =
    let zeros : Header = λ i. 0 in
    let magic = store version_at (codes " ") (store magic_at (codes "ustar") zeros) in
    let mode = store mode_at (octal 7 420) (store mtime_at (octal 11 env.time) magic) in
    store gname_at (codes "users") (set_uname env.login mode)

-- The bytes of a header from an offset on.
unfoldable pub tabulate : ℕ → ℕ → Header → Text
tabulate zero at header = []
tabulate (suc n) at header = header at ∷ tabulate n (suc at) header

abbrev pub sum_bytes : Text → ℕ
sum_bytes [] = 0
sum_bytes (x ∷ xs) = x + sum_bytes xs

-- The three loops of `setChecksum`, which cannot reach `2 ^ 32`.
unfoldable pub checksum : Header → ℕ
checksum header =
    sum_bytes (tabulate checksum_at 0 header)
    + 8 * 32
    + sum_bytes (tabulate (header_size - typeflag_at) typeflag_at header)

unfoldable pub set_checksum : Header → Header
unfolding store octal checksum
set_checksum header = store checksum_at (octal 6 (checksum header)) header

unfoldable pub set_size_in_archive : ℕ → Header → Header
unfolding store octal
set_size_in_archive file_size header = store size_at (octal 11 file_size) header

-- A name that is empty or too long is reported, and none is set.
unfoldable pub set_filename_in_archive : Text → Header → Header
unfolding store
set_filename_in_archive filename header =
    if is_empty filename || leb 100 (length filename) then header else store name_at filename header

abbrev pub clear_typeflag : Header → Header
clear_typeflag header i = if i == typeflag_at then 0 else header i

unfoldable pub header_of : Env → Text → ℕ → Header
unfolding initialize set_filename_in_archive set_size_in_archive set_checksum
header_of env filename len =
    let named = set_filename_in_archive filename (initialize env) in
    set_checksum (set_size_in_archive len (clear_typeflag named))

pub record Tar : Type 0 where
  pub finished : Bool
  pub out : Text

abbrev pub write : Text → Tar → Tar
write bytes tar = record tar { out = tar.out ++ bytes }

-- The loop of `addDelimiter`, which runs 511 times at most.
pub delimiter : ℕ → ℕ → Text
delimiter zero len = []
delimiter (suc fuel) len =
    let rest = 0 ∷ delimiter fuel (len + 1) in if not (len % header_size == 0) then rest else []

unfoldable pub add_delimiter : ℕ → Tar → Tar
unfolding delimiter
add_delimiter len tar = write (delimiter header_size len) tar

-- `put` with a length.
unfoldable pub put : Env → Text → Text → ℕ → Tar → Tar
unfolding header_of add_delimiter
put env filename content len tar =
    add_delimiter len
      (write (take len content) (write (tabulate header_size 0 (header_of env filename len)) tar))

-- What `fopen` gives: nothing, or the length that `ftell` tells and the bytes that `fread` reads.
abbrev pub File : Type 0
File = Option (ℕ × Text)

unfoldable pub put_file : Env → File → Text → Tar → Tar × Bool
unfolding header_of add_delimiter
put_file env none filename tar = (tar, false)
put_file env (some (len, content)) filename tar = (
  add_delimiter len
      (write content (write (tabulate header_size 0 (header_of env filename len)) tar)),
  true,
)

unfoldable pub finish : Tar → Tar
finish tar = record tar {
  finished = true;
  out = tar.out ++ replicate (header_size + header_size) 0;
}

-- The loop of `archiveFiles`, over the files and their names in the archive.
pub put_files : Env → List (File × Text) → Tar → Tar × Bool
unfolding put_file
put_files env [] tar = (tar, true)
put_files env ((file, filename) ∷ files) tar =
    let (tar1, ok) = put_file env file filename tar in
    let (tar2, result) = put_files env files tar1 in (tar2, ok && result)

-- What is in the output file, if it can be opened, and whether all went well.
unfoldable pub archive_files : Env → Bool → List (File × Text) → Text × Bool
unfolding put_files finish
archive_files env is_open files =
    let (tar, result) = put_files env files (record { finished = false; out = [] }) in
    if not is_open then ([], false) else ((finish tar).out, result)
