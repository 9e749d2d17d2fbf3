-- ===== src/Examples/Lines.antt =====
-- Lines of the command line, and a request of an administrator that becomes one.
use residue.Admin.Command.{levels_csv, command}
use residue.Admin.Request.{AdminRequest, list_logging_files}
use residue.Cli.Command.Requests.{IsRead, command-IsRead}
use residue.Cli.CommandHandler.{CommandHandler, split_input, take_input}
use residue.Cli.CommandHandler.Lines.{join, HasNoBlank, join-split_input}
use residue.Examples.Settings.{request}
use residue.Prelude.{◌≡◌, refl, true, some, [], ◌∷◌, All, codes, text_eq}

abbrev files_request : AdminRequest
files_request = record request {
  kind = list_logging_files;
  client_id = codes "bob";
  logger_id = codes "web";
  logging_levels = codes "info" ∷ codes "error" ∷ [];
}

command-IsRead_example : IsRead files_request (command files_request)
unfolding text_eq levels_csv
command-IsRead_example = command-IsRead files_request refl refl refl

join-split_input_example :
    let (cmd, params) = split_input (codes "stats  list") in
    (join (cmd ∷ params) ≡ codes "stats  list") × All HasNoBlank (cmd ∷ params)
join-split_input_example = join-split_input (codes "stats  list")

abbrev shell : CommandHandler
shell = record {
  history = codes "files" ∷ [];
  commands = codes "stats" ∷ codes "files" ∷ [];
  raw_commands = codes "history" ∷ [];
}

stats_line : take_input shell (codes " STATS list ") ≡ (
  record shell { history = codes "files" ∷ codes "stats" ∷ [] },
  some (codes "stats", codes "list" ∷ []),
  true,
)
unfolding take_input text_eq residue.Utils.Strings.insert_sorted residue.Utils.Strings.ltrim
    residue.Utils.Strings.rtrim residue.Utils.Templates.find residue.Utils.Templates.starts_with
stats_line = refl
