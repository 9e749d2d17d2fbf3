-- ===== src/Examples/Rotation.antt =====
-- The theorem on rotated logs at work, and the target of a rotation.
use residue.Tasks.LogRotator.{Disk, update, Answers, rotate_and_archive}
use residue.Tasks.LogRotator.Archived.{archive_of, rotated_archived}
use residue.Tasks.LogRotator.Moves.{contents}
use residue.Tasks.RotateTarget.{LocalTm, ArchiveNames, RotateTarget, Logger, create_rotate_target}
use residue.Utils.Tar.Reader.{extract}
use residue.Prelude.{suc, ◌≡◌, refl, true, none, some, [], ◌∷◌, arith, length, Text, codes, text_eq}

abbrev web : Logger
web = record {
  global_filename = codes "/log/web.log";
  levels = (codes "INFO", codes "/log/web.log") ∷ (codes "ERROR", codes "/log/err.log") ∷ [];
}

abbrev midnight : LocalTm
midnight = record { tm_min = 0; tm_hour = 0; tm_mday = 7; tm_wday = 2; tm_mon = 10; tm_year = 117 }

abbrev archive_names : ArchiveNames
archive_names = record {
  directory = codes "/old/%logger/";
  log_filename = codes "%logger-%day-%month-%level.log";
  compressed_filename = codes "%logger.tar.gz";
}

abbrev web_target : RotateTarget
web_target = record {
  destination_dir = codes "/old/web/";
  archive_filename = codes "web.tar.gz";
  items =
      record {
        source_filename = codes "/log/web.log";
        destination_dir = codes "/old/web/";
        target_filename = codes "web-07-Nov-global.log";
      }
      ∷ record {
        source_filename = codes "/log/err.log";
        destination_dir = codes "/old/web/";
        target_filename = codes "web-07-Nov-error.log";
      }
      ∷ [];
}

web_target_made :
    create_rotate_target (λ _. codes "/log") (codes "web") midnight archive_names (some web)
    ≡ web_target
unfolding create_rotate_target text_eq residue.Utils.Templates.starts_with residue.Prelude.Map.find
    residue.Prelude.Map.assign
web_target_made = refl

abbrev web_disk : Disk
web_disk =
    update (update (λ _. none) (codes "/log/web.log") (some (codes "hello"))) (codes "/log/err.log")
      (some [])

abbrev well : Answers
well = record {
  path_ready = λ _. true;
  renames = λ _ _. true;
  stream_ready = λ _. true;
  removes = λ _. true;
  tar_opens = true;
  compresses = true;
  compress = λ content. b'z' ∷ content;
  env = record { time = 1500000000; login = none };
  continue_process = true;
}

rotated_archived_example :
    (tar : Text) × (extract (suc (length (contents web_disk web_target.items))) tar
      ≡ some (contents web_disk web_target.items))
    × (rotate_and_archive well (codes "web") (some web) web_target web_disk (archive_of web_target)
        ≡ some (b'z' ∷ tar))
unfolding contents text_eq
rotated_archived_example =
    rotated_archived well (codes "web") web web_target web_disk
      ((λ _. refl), (λ _ _. refl), refl, refl, (omega arith, tt))
      ((((refl, refl), (refl, refl), (refl, refl)), tt), (tt, tt))
      ((refl, (refl, tt)), ((refl, (refl, tt)), tt)) (refl, (refl, tt))
      (((cc, omega arith, omega arith), omega arith), tt) refl
