-- ===== src/Cli/CommandHandler.antt =====
-- `CommandHandler` (src/cli/command-handler.cc): the reading of a line, and the command that it names.
pub mod Words
pub mod Lines
use residue.Core.Configuration.{member}
use residue.Utils.Strings.{insert_sorted, to_lower, trim}
use residue.Utils.Templates.{find}
use residue.Prelude.{
  ℕ, zero, suc, ◌+◌, ◌-◌, Bool, true, false, ◌||◌, Option, none, some, List, [], ◌∷◌, if◌then◌else◌,
  length, take, drop, Text, codes, text_eq, is_empty,
}

abbrev pub max_commands_history : ℕ
max_commands_history = 5

-- The members of the class, with the names of the commands that are registered.
pub record CommandHandler : Type 0 where
  pub history : List Text
  pub commands : List Text
  pub raw_commands : List Text

-- The loop over the blanks behind the last one; the fuel is the length of the input.
unfoldable pub params_behind : ℕ → Text → ℕ → List Text
unfolding find
params_behind zero input last_pos = []
params_behind (suc fuel) input last_pos = elim (find input (codes " ") (last_pos + 1)) [
  | none ↦ drop (last_pos + 1) input ∷ []
  | some pos ↦
      take ((pos - last_pos) - 1) (drop (last_pos + 1) input) ∷ params_behind fuel input pos
]

-- The command and its parameters, of an input that is not empty.
unfoldable pub split_input : Text → Text × List Text
unfolding params_behind
split_input input = elim (find input (codes " ") 0) [
  | none ↦ (input, [])
  | some pos ↦ (take pos input, params_behind (length input) input pos)
]

-- `while (m_history.size() > MAX_COMMANDS_HISTORY)`, which erases from the front.
abbrev pub shorten : List Text → List Text
shorten history = drop (length history - max_commands_history) history

-- A command that is to run, with its parameters.
abbrev pub Run : Type 0
Run = Option (Text × List Text)

unfoldable pub handle : CommandHandler → Text → List Text → CommandHandler × Run
unfolding insert_sorted
handle h given params =
    let cmd = trim (to_lower given) in
    let history = shorten h.history in
    let remembered = if text_eq cmd (codes "history") then history else insert_sorted cmd history in
    if member h.commands cmd || member h.raw_commands cmd
    then (record h { history = remembered }, some (cmd, params))
    else (record h { history = history }, none)

-- One line: `false` where the interrupt flag stays as it is.
unfoldable pub take_input : CommandHandler → Text → CommandHandler × Run × Bool
unfolding handle split_input
take_input h line =
    let input = trim line in
    let (cmd, params) = split_input input in
    let (h1, run) = handle h cmd params in
    if is_empty input then (h, none, false) else (h1, run, true)
