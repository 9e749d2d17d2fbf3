-- ===== src/Core/Configuration/Blacklist.antt =====
-- `Configuration::loadLoggersBlacklist` (src/core/configuration.cc).
pub mod Complete
use residue.Core.Configuration.{Configuration, is_managed_logger, member}
use residue.Prelude.{ℕ, ◌+◌, not, List, [], ◌∷◌, ◌++◌, leb, if◌then◌else◌, length, Text, is_empty}

-- What is written to the error stream.
pub data BlacklistComplaint : Type 0 where
  is_managed is_full : BlacklistComplaint

abbrev pub max_blacklist_loggers : ℕ
max_blacklist_loggers = 10000

unfoldable pub blacklist_one : Text → Configuration → Configuration × List BlacklistComplaint
blacklist_one logger_id conf =
    if is_empty logger_id
    then (conf, [])
    else if is_managed_logger conf logger_id
    then (conf, is_managed ∷ [])
    else if leb max_blacklist_loggers (length conf.blacklist)
    then (conf, is_full ∷ [])
    else if not (member conf.blacklist logger_id)
    then (record conf { blacklist = logger_id ∷ conf.blacklist }, [])
    else (conf, [])

-- The loop over the array, whose items are the texts of its nodes, empty for what is no string.
unfoldable pub load_loggers_blacklist :
    List Text → Configuration → Configuration × List BlacklistComplaint
unfolding blacklist_one
load_loggers_blacklist [] conf = (conf, [])
load_loggers_blacklist (id ∷ ids) conf =
    let (conf1, complaints) = blacklist_one id conf in
    let (conf2, more) = load_loggers_blacklist ids conf1 in (conf2, complaints ++ more)
