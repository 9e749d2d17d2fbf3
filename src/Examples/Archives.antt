-- ===== src/Examples/Archives.antt =====
-- The theorems on the archives and on the names of rotated files, at work.
use residue.Utils.Tar.{Env, archive_files}
use residue.Utils.Tar.Archive.{files_of, extract-archive_files}
use residue.Utils.Tar.Reader.{extract}
use residue.Utils.Templates.{find, round, search_on, replace_first_with_escape}
use residue.Utils.Templates.Escapes.{replace_first_with_escape-expand}
use residue.Utils.Templates.Expand.{expand}
use residue.Prelude.{◌≡◌, refl, true, some, List, [], ◌∷◌, arith, Text, codes}

abbrev logged_in : Env
logged_in = record { time = 1500000000; login = some (codes "root") }

abbrev rotated : List (Text × Text)
rotated = (codes "app.log", codes "hello") ∷ (codes "web.log", []) ∷ []

extract-archive_files_example :
    (extract 3 (archive_files logged_in true (files_of rotated)).0 ≡ some rotated)
    × ((archive_files logged_in true (files_of rotated)).1 ≡ true)
extract-archive_files_example =
    extract-archive_files logged_in rotated (omega arith, omega arith)
      (
        ((cc, omega arith, omega arith), omega arith),
        (((cc, omega arith, omega arith), omega arith), tt),
      )

replace_first_with_escape-expand_example :
    replace_first_with_escape (codes "%logger") (codes "app") b'%' (codes "%%logger-%logger")
    ≡ expand (codes "%logger") (codes "app") b'%' 0 (codes "%%logger-%logger")
replace_first_with_escape-expand_example =
    replace_first_with_escape-expand b'%' b'l' b'o' (codes "gger") (codes "app")
      (codes "%%logger-%logger") (refl, (refl, (refl, (refl, (refl, (refl, tt))))))

one_escaped :
    expand (codes "%logger") (codes "app") b'%' 0 (codes "%%logger-%logger") ≡ codes "%logger-app"
unfolding expand residue.Utils.Templates.starts_with
one_escaped = refl
