-- ===== src/Cli/Command.antt =====
-- `Command` (src/cli/command.h, command.cc): the parameters of a command.
pub mod Requests
use residue.Core.Configuration.{member}
use residue.Prelude.{Bool, List, [], ◌∷◌, if◌then◌else◌, Text, text_eq}

unfoldable pub has_param : List Text → Text → Bool
has_param params param = member params param

-- The value is the parameter after the first one of that name.
unfoldable pub get_param_value : List Text → Text → Text
get_param_value [] param = []
get_param_value (p ∷ []) param = []
get_param_value (p ∷ value ∷ params) param =
    let rest = get_param_value (value ∷ params) param in if text_eq p param then value else rest
