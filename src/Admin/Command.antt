-- ===== src/Admin/Command.antt =====
-- `AdminRequestHandler::handle` (src/admin/admin-request-handler.cc), behind the
-- `RequestHandler::handle` that fills the request: the command that a request becomes.
pub mod Replies
use residue.Core.Request.{StatusCode, status_ok, bad_request}
use residue.Admin.Request.{
  AdminRequest, Kind, reload_config, reset, list_logging_files, force_log_rotation, stats,
  list_clients,
}
use residue.Prelude.{
  ◌+◌, not, Option, none, some, List, [], ◌∷◌, ◌++◌, if◌then◌else◌, Text, codes, is_empty,
}

-- The levels, each followed by a comma, but for the last one.
unfoldable pub levels_csv : List Text → Text
levels_csv [] = []
levels_csv (l ∷ []) = l
levels_csv (l ∷ m ∷ ls) = l ++ b',' ∷ levels_csv (m ∷ ls)

-- A parameter with its name, left out where it is empty.
abbrev pub given : Text → Text → List Text
given name value = if is_empty value then [] else name ∷ value ∷ []

-- The `switch`: a command and its parameters, or `none` for an empty command.
unfoldable pub command : AdminRequest → Option (Text × List Text)
unfolding levels_csv
command r = elim r.kind [
  | reload_config ↦ some (codes "rconfig", given (codes "--logger-id") r.logger_id)
  | reset ↦ some (codes "reset", [])
  | force_log_rotation ↦ some (codes "rotate", codes "--logger-id" ∷ r.logger_id ∷ [])
  | list_clients ↦ some (codes "clients", codes "list" ∷ [])
  | stats ↦ some (codes "stats", codes "list" ∷ given (codes "--client-id") r.client_id)
  | list_logging_files ↦ some (
    codes "files",
    codes "--client-id"
        ∷ r.client_id
        ∷ (given (codes "--levels") (levels_csv r.logging_levels)
            ++ given (codes "--logger-id") r.logger_id),
  )
  | _ ↦ none
]

-- What comes of a request: a text for the sender, or a command that runs.
pub data Reply : Type 0 where
  responds : Text → Reply
  runs : Text → List Text → Reply

abbrev pub run_command : Option (Text × List Text) → Reply
run_command none = responds (codes "Unknown admin request")
run_command (some (cmd, params)) = runs cmd params

unfoldable pub reply : AdminRequest → Reply
unfolding command
reply r = elim (r.base.status_code) [
  | bad_request ↦ responds (codes "Unable to continue with this request!")
  | status_ok ↦
      if not r.base.is_valid
      then responds (codes "Invalid admin request")
      else run_command (command r)
]
