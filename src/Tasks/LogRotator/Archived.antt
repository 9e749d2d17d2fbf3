-- ===== src/Tasks/LogRotator/Archived.antt =====
-- What a rotation leaves of the log files (src/tasks/log-rotator.cc, src/utils/tar.cc).
use residue.Prelude.Map
use residue.Prelude.Map.{Map}
use residue.Tasks.LogRotator.{
  Disk, Answers, ArchiveItem, full_path, is_full, rotate_items, truncate_all, rotate,
  archived_files, tmp_tar, archive_and_compress, rotate_and_archive,
}
use residue.Tasks.LogRotator.Moves.{
  AreApart, noted, contents, HaveArrived, rotate_items_finished, files-rotate_items,
  rotate_items-HaveArrived,
}
use residue.Tasks.RotateTarget.{BackupItem, RotateTarget, Logger}
use residue.Tasks.LogRotator.Archiving.{
  archived_files-noted, truncate_all_other, noted-other, is_empty-noted, after_archiving_lem,
  archive_and_compress_lem,
}
use residue.Utils.Tar.{archive_files}
use residue.Utils.Tar.Archive.{IsEntry, files_of, extract-archive_files}
use residue.Utils.Tar.Fields.{IsEnv}
use residue.Utils.Tar.Reader.{extract}
use residue.Prelude.{
  suc, ◌≡◌, refl, ap, ◌∙◌, true, false, Option, none, some, List, [], ◌∷◌, ◌++◌, if◌then◌else◌,
  length, All, Text, codes, text_eq, is_empty, All-map, All-both,
}

-- No file is moved to a log file of the logger.
abbrev pub Clear : Logger → List BackupItem → Type 0
Clear logger items = All (λ i. All (λ l. text_eq l.1 (full_path i) ≡ false) logger.levels) items

abbrev pub Reliable : Answers → Type 0
Reliable answers =
    ((d : Text) → answers.path_ready d ≡ true)
    × ((s d : Text) → answers.renames s d ≡ true)
    × (answers.tar_opens ≡ true)
    × (answers.continue_process ≡ true)
    × IsEnv answers.env

abbrev pub archive_of : RotateTarget → Text
archive_of target = target.destination_dir ++ (codes "/" ++ target.archive_filename)

none_noted :
    (items : List BackupItem) → All (λ i. Map.find {V = Text} [] (full_path i) ≡ none) items
unfolding Map.find
none_noted [] = tt
none_noted (i ∷ items) = (refl, none_noted items)

item_of : Text → RotateTarget → Map Text → ArchiveItem
item_of logger_id target files = record {
  logger_id = logger_id;
  archive_filename = archive_of target;
  files = files;
}

module _ (answers : Answers) (logger_id : Text) (logger : Logger) (target : RotateTarget)
    (disk : Disk) (reliable : Reliable answers) (apart : AreApart target.items) where
  after_rotate : Disk
  after_rotate = truncate_all answers logger.levels [] (rotate_items answers target.items disk []).1

  rotate_lem :
      rotate answers logger_id (some logger) target disk
      ≡ (after_rotate, some (item_of logger_id target (noted disk target.items)))
  unfolding rotate after_rotate item_of
  rotate_lem =
      simp
        (
          rotate_items_finished answers reliable.0 reliable.1 target.items disk [],
          files-rotate_items answers reliable.0 reliable.1 target.items disk [] apart
              (none_noted target.items),
        )
        refl

  after_rotate-HaveArrived : Clear logger target.items → HaveArrived disk after_rotate target.items
  unfolding after_rotate
  after_rotate-HaveArrived clear =
      let moved = (rotate_items answers target.items disk []).1 in
      All-map
        (λ i.
          (is_full (disk i.source_filename) ≡ true → moved (full_path i) ≡ disk i.source_filename)
          × All (λ l. text_eq l.1 (full_path i) ≡ false) logger.levels)
        (λ i.
          is_full (disk i.source_filename) ≡ true
          → after_rotate (full_path i) ≡ disk i.source_filename)
        target.items
        (λ i h full. truncate_all_other answers logger.levels [] moved (full_path i) h.1 ∙ h.0 full)
        (All-both
          (λ i.
            is_full (disk i.source_filename) ≡ true → moved (full_path i) ≡ disk i.source_filename)
          (λ i. All (λ l. text_eq l.1 (full_path i) ≡ false) logger.levels) target.items
          (rotate_items-HaveArrived answers reliable.0 reliable.1 target.items disk [] apart) clear)

  -- Where every move and the archiving succeed, no two files of the logger share a path, nothing is
  -- moved to one of its log files or to the temporary archive, the names and sizes fit into an archive
  -- and there is something to rotate, the rotation leaves an archive from which a reader gets back the
  -- name and the content of each log file that was not empty, compressed where that succeeds.
  pub rotated_archived :
      Clear logger target.items
      → All (λ i. text_eq (full_path i) (archive_of target ++ codes ".tar") ≡ false) target.items
      → All IsEntry (contents disk target.items)
      → is_empty (contents disk target.items) ≡ false
      → (tar : Text) × (extract (suc (length (contents disk target.items))) tar
          ≡ some (contents disk target.items))
        × (rotate_and_archive answers logger_id
              (some logger)
              target
              disk
              (if answers.compresses then archive_of target else archive_of target ++ codes ".tar")
            ≡ some (if answers.compresses then answers.compress tar else tar))
  unfolding rotate_and_archive item_of
  rotated_archived clear off_tar entries filled =
      let es = contents disk target.items in
      let item = item_of logger_id target (noted disk target.items) in
      let (_, _, opens, goes_on, is_env) = reliable in
      let (read, fine) = extract-archive_files answers.env es is_env entries in
      let written : archive_files answers.env answers.tar_opens
            (archived_files after_rotate item.files)
          ≡ ((archive_files answers.env true (files_of es)).0, true) =
        ap (λ b. archive_files answers.env b (archived_files after_rotate item.files)) opens
        ∙ (ap (archive_files answers.env true)
              (archived_files-noted disk after_rotate target.items (after_rotate-HaveArrived clear))
            ∙ ap (λ b. ((archive_files answers.env true (files_of es)).0, b)) fine) in
      let filled1 = is_empty-noted disk target.items ∙ filled in
      let whole =
        ap
          (λ (r : Disk × Option ArchiveItem). elim r.1 [
            | none ↦ r.0
            | some i ↦ archive_and_compress answers i r.0
          ])
          rotate_lem
        ∙ archive_and_compress_lem answers item after_rotate
            (archive_files answers.env true (files_of es)).0 goes_on filled1 written in
      (
        (archive_files answers.env true (files_of es)).0,
        read,
        ap (λ d. d (if answers.compresses then archive_of target else tmp_tar item)) whole
            ∙ after_archiving_lem answers item after_rotate
                (archive_files answers.env true (files_of es)).0 opens
                (noted-other disk target.items (tmp_tar item) off_tar),
      )
