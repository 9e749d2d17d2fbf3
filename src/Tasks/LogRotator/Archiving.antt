-- ===== src/Tasks/LogRotator/Archiving.antt =====
-- What `LogRotator::rotate` has emptied and `LogRotator::archiveAndCompress` has written
-- (src/tasks/log-rotator.cc).
use residue.Core.Configuration.{member}
use residue.Prelude.Map.{Map}
use residue.Tasks.LogRotator.{
  Disk, update, Answers, ArchiveItem, full_path, is_full, truncate_all, archived_files, remove_all,
  tmp_tar, after_archiving, archive_and_compress,
}
use residue.Tasks.LogRotator.Moves.{noted, contents, HaveArrived}
use residue.Tasks.RotateTarget.{BackupItem}
use residue.Utils.Tar.{archive_files}
use residue.Utils.Tar.Archive.{files_of}
use residue.Prelude.{
  ◌≡◌, refl, ap, ◌∙◌, inl, inr, true, false, Option, none, some, List, [], ◌∷◌, arith,
  if◌then◌else◌, Bool-cases, Option-cases, length, All, length-append, Text, codes, text_eq,
  text_eq_iff, text_eq_refl, is_empty, if_cases,
}

pub archived_files-noted :
    (disk after : Disk) (items : List BackupItem)
    → HaveArrived disk after items
    → archived_files after (noted disk items) ≡ files_of (contents disk items)
unfolding noted contents archived_files
archived_files-noted disk after [] h = refl
archived_files-noted disk after (i ∷ items) h =
    elim (Bool-cases (is_full (disk i.source_filename))) [
      | inl full ↦ elim (Option-cases (disk i.source_filename)) [
        | inl gone ↦ absurd (not_full (disk i.source_filename) full gone)
        | inr (c, there) ↦
            rw full (rw (h.0 full, there, archived_files-noted disk after items h.1) refl)
      ]
      | inr empty ↦ rw empty (archived_files-noted disk after items h.1)
    ]
  where
    not_full : (o : Option Text) → is_full o ≡ true → o ≡ none → ⊥
    not_full none p e = cc
    not_full (some c) p e = cc

pub truncate_all_other :
    (answers : Answers) (levels : List (Text × Text)) (done : List Text) (disk : Disk) (p : Text)
    → All (λ l. text_eq l.1 p ≡ false) levels
    → truncate_all answers levels done disk p ≡ disk p
unfolding truncate_all
truncate_all_other answers [] done disk p h = refl
truncate_all_other answers ((level, filename) ∷ levels) done disk p h =
    elim (Bool-cases (member done filename)) [
      | inl told ↦ rw told (truncate_all_other answers levels done disk p h.1)
      | inr new ↦ elim (Bool-cases (answers.stream_ready filename)) [
        | inl ready ↦
            rw (new, ready)
              (truncate_all_other answers levels (filename ∷ done) (update disk filename (some []))
                  p h.1
                ∙ rw h.0 refl)
        | inr failed ↦
            rw (new, failed) (truncate_all_other answers levels (filename ∷ done) disk p h.1)
      ]
    ]

remove_all_other :
    (answers : Answers) (files : Map Text) (disk : Disk) (p : Text)
    → All (λ f. text_eq f.0 p ≡ false) files
    → remove_all answers files disk p ≡ disk p
unfolding remove_all
remove_all_other answers [] disk p h = refl
remove_all_other answers ((path, name) ∷ files) disk p h =
    elim (Bool-cases (answers.removes path)) [
      | inl gone ↦
          rw gone (remove_all_other answers files (update disk path none) p h.1 ∙ rw h.0 refl)
      | inr kept ↦ rw kept (remove_all_other answers files disk p h.1)
    ]

pub noted-other :
    (disk : Disk) (items : List BackupItem) (p : Text)
    → All (λ i. text_eq (full_path i) p ≡ false) items
    → All (λ f. text_eq f.0 p ≡ false) (noted disk items)
unfolding noted
noted-other disk [] p h = tt
noted-other disk (i ∷ items) p h =
    if_cases (All (λ f. text_eq f.0 p ≡ false)) (is_full (disk i.source_filename)) _ _
      (λ _. (h.0, noted-other disk items p h.1)) (λ _. noted-other disk items p h.1)

pub is_empty-noted :
    (disk : Disk) (items : List BackupItem)
    → is_empty (noted disk items) ≡ is_empty (contents disk items)
unfolding noted contents
is_empty-noted disk [] = refl
is_empty-noted disk (i ∷ items) = elim (Bool-cases (is_full (disk i.source_filename))) [
  | inl full ↦ rw full refl
  | inr empty ↦ rw empty (is_empty-noted disk items)
]

tmp_tar-ne : (item : ArchiveItem) → text_eq (tmp_tar item) item.archive_filename ≡ false
tmp_tar-ne item = elim (Bool-cases (text_eq (tmp_tar item) item.archive_filename)) [
  | inl same ↦ absurd (
      omega (
        arith,
        ap length ((text_eq_iff (tmp_tar item) item.archive_filename).0 same),
        length-append item.archive_filename (codes ".tar"),
      ))
  | inr other ↦ other
]

-- The archive of an item is written, and its tar file stays where it cannot be compressed.
pub after_archiving_lem :
    (answers : Answers) (item : ArchiveItem) (disk : Disk) (tar : Text)
    → answers.tar_opens ≡ true
    → All (λ f. text_eq f.0 (tmp_tar item) ≡ false) item.files
    → after_archiving answers item disk
        (tar, true)
        (if answers.compresses then item.archive_filename else tmp_tar item)
      ≡ some (if answers.compresses then answers.compress tar else tar)
unfolding after_archiving
after_archiving_lem answers item disk tar opens apart =
    let with_tar = update disk (tmp_tar item) (some tar) in
    let left : remove_all answers item.files with_tar (tmp_tar item) ≡ some tar =
      remove_all_other answers item.files with_tar (tmp_tar item) apart
      ∙ rw (text_eq_refl (tmp_tar item)) refl in
    elim (Bool-cases answers.compresses) [
      | inl done ↦ elim (Bool-cases (answers.removes (tmp_tar item))) [
        | inl gone ↦
            simp (opens, done, gone, tmp_tar-ne item, text_eq_refl item.archive_filename, left) refl
        | inr kept ↦ simp (opens, done, kept, text_eq_refl item.archive_filename, left) refl
      ]
      | inr failed ↦ simp (opens, failed) left
    ]

pub archive_and_compress_lem :
    (answers : Answers) (item : ArchiveItem) (disk : Disk) (tar : Text)
    → answers.continue_process ≡ true
    → is_empty item.files ≡ false
    → archive_files answers.env answers.tar_opens (archived_files disk item.files) ≡ (tar, true)
    → archive_and_compress answers item disk ≡ after_archiving answers item disk (tar, true)
unfolding archive_and_compress
archive_and_compress_lem answers item disk tar goes_on filled archived =
    simp (goes_on, filled) (ap (after_archiving answers item disk) archived)
