-- ===== src/Tasks/RotateTarget.antt =====
-- `LogRotator::createRotateTarget` (src/tasks/log-rotator.cc): where the files of a logger go when
-- they are rotated.
use residue.Core.Configuration.{member, value_or}
use residue.Prelude.Map
use residue.Prelude.Map.{Map, is_some}
use residue.Utils.BigAdd.{to_string}
use residue.Utils.Strings.{insert_sorted, to_lower}
use residue.Utils.Templates.{find, replace_first_with_escape, replace_all}
use residue.Prelude.{
  ℕ, ◌+◌, ◌/◌, String, Bool, not, ◌&&◌, Option, none, some, List, [], ◌∷◌, ◌++◌, ltb, if◌then◌else◌,
  length, Text, codes, text_eq, get_or,
}

-- `std::tm`.
pub record LocalTm : Type 0 where
  pub tm_min : ℕ
  pub tm_hour : ℕ
  pub tm_mday : ℕ
  pub tm_wday : ℕ
  pub tm_mon : ℕ
  pub tm_year : ℕ

-- What the configuration has for a logger: its directory, the name of a rotated file and that of the
-- archive.
pub record ArchiveNames : Type 0 where
  pub directory : Text
  pub log_filename : Text
  pub compressed_filename : Text

-- `el::Logger`: the file of its global level, and the name and file of each level, in their order.
pub record Logger : Type 0 where
  pub global_filename : Text
  pub levels : List (Text × Text)

pub record BackupItem : Type 0 where
  pub source_filename : Text
  pub destination_dir : Text
  pub target_filename : Text

pub record RotateTarget : Type 0 where
  pub destination_dir : Text
  pub archive_filename : Text
  pub items : List BackupItem

abbrev days_abbrev : List Text
days_abbrev =
    codes "Sun"
    ∷ codes "Mon"
    ∷ codes "Tue"
    ∷ codes "Wed"
    ∷ codes "Thu"
    ∷ codes "Fri"
    ∷ codes "Sat"
    ∷ []

abbrev months_abbrev : List Text
months_abbrev =
    codes "Jan"
    ∷ codes "Feb"
    ∷ codes "Mar"
    ∷ codes "Apr"
    ∷ codes "May"
    ∷ codes "Jun"
    ∷ codes "Jul"
    ∷ codes "Aug"
    ∷ codes "Sep"
    ∷ codes "Oct"
    ∷ codes "Nov"
    ∷ codes "Dec"
    ∷ []

-- With a zero in front, if there is one digit.
unfoldable pub two_digits : ℕ → Text
unfolding to_string
two_digits n = if ltb n 10 then b'0' ∷ to_string n else to_string n

-- `std::to_string` of a whole number that is a `double`.
unfoldable pub current_quarter : LocalTm → Text
unfolding to_string
current_quarter tm = b'Q' ∷ (to_string ((tm.tm_mon + 1) / 3) ++ codes ".000000")

abbrev resolve : String → Text → Text → Text
resolve specifier with templ = replace_first_with_escape (codes specifier) with b'%' templ

unfoldable pub resolve_format_specifiers : Text → LocalTm → Text → Text
unfolding two_digits current_quarter replace_first_with_escape
resolve_format_specifiers logger_id tm templ = resolve "%year" (to_string (tm.tm_year + 1900)) (
    resolve "%quarter" (current_quarter tm) (
      resolve "%month" (get_or [] months_abbrev tm.tm_mon) (
        resolve "%wday" (get_or [] days_abbrev tm.tm_wday) (
          resolve "%day" (two_digits tm.tm_mday) (
            resolve "%hour" (two_digits tm.tm_hour)
              (resolve "%min" (two_digits tm.tm_min) (resolve "%logger" logger_id templ)))))))

-- `fileByLevel`.
pub file_by_level : List (Text × Text) → List Text → List Text
file_by_level [] files = files
file_by_level ((level, filename) ∷ levels) files =
    file_by_level levels (if member files filename then files else files ++ filename ∷ [])

-- `levelsInFilename`.
pub levels_in_filename : Text → List (Text × Text) → Map (List Text) → Map (List Text)
unfolding insert_sorted
levels_in_filename global_filename [] m = m
levels_in_filename global_filename ((level, filename) ∷ levels) m =
    let identifier = if text_eq global_filename filename then codes "global" else to_lower level in
    levels_in_filename global_filename levels
      (Map.assign m filename (insert_sorted identifier (value_or (Map.find m filename) [])))

-- The names with hyphens between them.
abbrev pub level_name : List Text → Text
level_name [] = []
level_name (level ∷ []) = level
level_name (level ∷ next ∷ levels) = level ++ (b'-' ∷ level_name (next ∷ levels))

module _ (extract_path : Text → Text) where
  -- The loop over the files, which carries the directory on; `several` says that there is more than
  -- one.
  pub create_items : Bool → Text → Map (List Text) → List Text → Text → List BackupItem × Text
  create_items several rotated_filename levels_in [] init_destination_dir =
      ([], init_destination_dir)
  create_items several rotated_filename levels_in (source ∷ sources) init_destination_dir =
      let name = level_name (value_or (Map.find levels_in source) []) in
      let template =
        if several && not (is_some (find rotated_filename (codes "%level") 0))
        then codes "%level-" ++ rotated_filename
        else rotated_filename in
      let dir = resolve "%original" (extract_path source) init_destination_dir in
      let item : BackupItem = record {
        source_filename = source;
        destination_dir = resolve "%level" name dir;
        target_filename = resolve "%level" name template;
      } in
      let (items, last_dir) = create_items several rotated_filename levels_in sources dir in
      (item ∷ items, last_dir)

  items_of : Option Logger → Text → Text → List BackupItem × Text
  unfolding create_items file_by_level levels_in_filename
  items_of none rotated_filename dir = ([], dir)
  items_of (some logger) rotated_filename dir =
      let files = file_by_level logger.levels [] in
      create_items (ltb 1 (length files)) rotated_filename
        (levels_in_filename logger.global_filename logger.levels []) files dir

  unfoldable pub create_rotate_target : Text → LocalTm → ArchiveNames → Option Logger → RotateTarget
  unfolding resolve_format_specifiers items_of replace_all
  create_rotate_target logger_id tm names logger =
      let resolved = resolve_format_specifiers logger_id tm in
      let rotated_filename = resolved (resolved names.log_filename) in
      let separated =
        replace_all (codes "//") (codes "/") 1 (resolved names.directory ++ codes "/") in
      let init_dir = replace_all (codes "%original/") (codes "%original") 1 separated in
      let (items, dir) = items_of logger rotated_filename init_dir in
      record {
        destination_dir = replace_all (codes "%level") [] 1 dir;
        archive_filename = resolved (resolved names.compressed_filename);
        items = items;
      }
