-- ===== src/Tasks/LogRotator.antt =====
-- `LogRotator` (src/tasks/log-rotator.h, log-rotator.cc): the files of a logger are moved, emptied,
-- archived and compressed.
--
-- The disk is a function from paths to contents; what the file system and the libraries answer in one
-- run is a parameter.
pub mod Moves
pub mod Archiving
pub mod Archived
use mathlib.Core.Option
use residue.Core.Configuration.{
  member, Frequency, never, hourly, six_hours, twelve_hours, daily, weekly, monthly, yearly,
}
use residue.Prelude.Map
use residue.Prelude.Map.{Map}
use residue.Tasks.RotateTarget.{BackupItem, RotateTarget, Logger}
use residue.Utils.Tar
use residue.Utils.Tar.{Env, File, archive_files}
use residue.Prelude.{
  ℕ, ◌+◌, Bool, true, false, not, ◌&&◌, Option, none, some, List, [], ◌∷◌, ◌++◌, ◌==◌,
  if◌then◌else◌, length, Text, codes, text_eq, is_empty,
}

abbrev pub Disk : Type 0
Disk = Text → Option Text

abbrev pub update : Disk → Text → Option Text → Disk
update disk path content p = if text_eq path p then content else disk p

pub record Answers : Type 0 where
  -- The directory is there or can be created.
  pub path_ready : Text → Bool
  -- `rename` succeeds.
  pub renames : Text → Text → Bool
  -- The level's stream is open and has not failed.
  pub stream_ready : Text → Bool
  -- `remove` succeeds.
  pub removes : Text → Bool
  pub tar_opens : Bool
  -- `ZLib::compressFile`: whether it succeeds, and what it makes of the file.
  pub compresses : Bool
  pub compress : Text → Text
  pub env : Env
  -- What the extensions before archiving say.
  pub continue_process : Bool

pub record ArchiveItem : Type 0 where
  pub logger_id : Text
  pub archive_filename : Text
  pub files : Map Text

abbrev pub full_path : BackupItem → Text
full_path item = item.destination_dir ++ item.target_filename

-- `fileSize(…) > 0`.
abbrev pub is_full : Option Text → Bool
is_full none = false
is_full (some content) = not (is_empty content)

abbrev pub file_at : Disk → Text → File
file_at disk path = Option.map (λ (content : Text). (length content, content)) (disk path)

-- The files and their names in the archive.
pub archived_files : Disk → Map Text → List (File × Text)
archived_files disk [] = []
archived_files disk ((path, name) ∷ files) = (file_at disk path, name) ∷ archived_files disk files

abbrev pub tmp_tar : ArchiveItem → Text
tmp_tar item = item.archive_filename ++ codes ".tar"

-- The values of `RotationFrequency`.
abbrev pub seconds : Frequency → ℕ
seconds never = 0
seconds hourly = 3600
seconds six_hours = 21600
seconds twelve_hours = 43200
seconds daily = 86400
seconds weekly = 604800
seconds monthly = 2419200
seconds yearly = 29030400

module _ (answers : Answers) where
  -- `rename`, where it succeeds.
  abbrev pub move : Text → Text → Disk → Disk
  move source path disk = update (update disk source none) path (disk source)

  -- The move of one file, and what is noted for the archive.
  unfoldable pub rotate_item : BackupItem → Disk → Map Text → Disk × Map Text
  rotate_item item disk files =
      if is_full (disk item.source_filename)
        && answers.renames item.source_filename (full_path item)
      then (
        move item.source_filename (full_path item) disk,
        Map.insert files (full_path item) item.target_filename,
      )
      else (disk, files)

  -- The loop over the items; `false` if it returns early.
  pub rotate_items : List BackupItem → Disk → Map Text → Bool × Disk × Map Text
  rotate_items [] disk files = (true, disk, files)
  rotate_items (item ∷ items) disk files =
      let (disk1, files1) = rotate_item item disk files in
      let rest = rotate_items items disk1 files1 in
      if not (answers.path_ready item.destination_dir) then (false, disk, files) else rest

  -- `closeAndTrunc` for each level, once for each file.
  pub truncate_all : List (Text × Text) → List Text → Disk → Disk
  truncate_all [] done disk = disk
  truncate_all ((level, filename) ∷ levels) done disk =
      if member done filename
      then truncate_all levels done disk
      else truncate_all levels (filename ∷ done)
          (if answers.stream_ready filename then update disk filename (some []) else disk)

  -- `rotate`, for the target of a logger: the disk, and the item to archive.
  unfoldable pub rotate : Text → Option Logger → RotateTarget → Disk → Disk × Option ArchiveItem
  unfolding rotate_items truncate_all
  rotate logger_id none target disk = (
    disk,
    some (record {
      logger_id = logger_id;
      archive_filename = target.destination_dir ++ (codes "/" ++ target.archive_filename);
      files = [];
    }),
  )
  rotate logger_id (some logger) target disk =
      let (finished, disk1, files) = rotate_items target.items disk [] in
      if not finished then (disk1, none) else (
        truncate_all logger.levels [] disk1,
        some (record {
          logger_id = logger_id;
          archive_filename = target.destination_dir ++ (codes "/" ++ target.archive_filename);
          files = files;
        }),
      )

  pub remove_all : Map Text → Disk → Disk
  remove_all [] disk = disk
  remove_all ((path, name) ∷ files) disk =
      remove_all files (if answers.removes path then update disk path none else disk)

  -- From what the archiving of the files gives on.
  unfoldable pub after_archiving : ArchiveItem → Disk → Text × Bool → Disk
  unfolding remove_all
  after_archiving item disk (tar, archived) =
      let with_tar = if answers.tar_opens then update disk (tmp_tar item) (some tar) else disk in
      let removed = remove_all item.files with_tar in
      let compressed =
        if answers.compresses
        then update removed item.archive_filename
            (Option.map answers.compress (removed (tmp_tar item)))
        else removed in
      if not archived
      then with_tar
      else if answers.compresses && answers.removes (tmp_tar item)
      then update compressed (tmp_tar item) none
      else compressed

  unfoldable pub archive_and_compress : ArchiveItem → Disk → Disk
  unfolding archived_files archive_files after_archiving
  archive_and_compress item disk =
      if is_empty item.files
      then disk
      else if not answers.continue_process
      then disk
      else after_archiving item disk
          (archive_files answers.env answers.tar_opens (archived_files disk item.files))

  -- `rotate` and the archiving of its item.
  unfoldable pub rotate_and_archive : Text → Option Logger → RotateTarget → Disk → Disk
  unfolding rotate archive_and_compress
  rotate_and_archive logger_id logger target disk =
      let (disk1, item) = rotate logger_id logger target disk in
      elim item [ none ↦ disk1 | some item ↦ archive_and_compress item disk1 ]

  -- The loggers of one frequency, with the items that wait to be archived.
  pub rotate_due :
      ℕ
      → (Text → Option Logger)
      → (Text → RotateTarget)
      → Map Frequency
      → Disk × List ArchiveItem
      → Disk × List ArchiveItem
  unfolding rotate
  rotate_due frequency logger target_of [] state = state
  rotate_due frequency logger target_of ((logger_id, of_logger) ∷ more) (disk, items) =
      let (disk1, item) = rotate logger_id (logger logger_id) (target_of logger_id) disk in
      let added : List ArchiveItem = elim item [ none ↦ items | some item ↦ items ++ item ∷ [] ] in
      rotate_due frequency logger target_of more
        (if frequency == seconds of_logger then (disk1, added) else (disk, items))

  pub archive_rotated_items : List ArchiveItem → Disk → Disk
  unfolding archive_and_compress
  archive_rotated_items [] disk = disk
  archive_rotated_items (item ∷ items) disk =
      archive_rotated_items items (archive_and_compress item disk)

  unfoldable pub execute :
      ℕ
      → (Text → Option Logger)
      → (Text → RotateTarget)
      → Map Frequency
      → Disk × List ArchiveItem
      → Disk × List ArchiveItem
  unfolding rotate_due archive_rotated_items
  execute frequency logger target_of frequencies state =
      let (disk, items) = rotate_due frequency logger target_of frequencies state in
      (archive_rotated_items items disk, [])
