-- ===== src/Core/Configuration/Blacklist/Complete.antt =====
-- What should hold of the black list that `Configuration::loadLoggersBlacklist`
-- (src/core/configuration.cc) loads.
use residue.Core.Configuration.{Configuration, is_managed_logger, member}
use residue.Core.Configuration.Blacklist.{
  BlacklistComplaint, max_blacklist_loggers, blacklist_one, load_loggers_blacklist,
}
use residue.Prelude.{
  ◌≤◌, ◌≡◌, false, not, List, [], ◌∷◌, arith, leb, length, All, Text, is_empty, if_cases,
}

abbrev pub IsUniqueList : List Text → Type 0
IsUniqueList [] = Unit
IsUniqueList (x ∷ xs) = (member xs x ≡ false) × IsUniqueList xs

-- No logger stands on the list twice, none that the configuration manages, and no more than the
-- limit.
pub record IsBlacklist (conf : Configuration) : Type 0 where
  pub unique : IsUniqueList conf.blacklist
  pub unmanaged : All (λ id. is_managed_logger conf id ≡ false) conf.blacklist
  pub bounded : length conf.blacklist ≤ max_blacklist_loggers

blacklist_one-IsBlacklist :
    (id : Text) (conf : Configuration) → IsBlacklist conf → IsBlacklist (blacklist_one id conf).0
unfolding blacklist_one is_managed_logger
blacklist_one-IsBlacklist id conf b =
    let P : Configuration × List BlacklistComplaint → Type 0 = λ p. IsBlacklist p.0 in
    if_cases P (is_empty id) _ _ (λ _. b)
      λ _.
        if_cases P (is_managed_logger conf id) _ _ (λ _. b)
          λ free.
            if_cases P (leb max_blacklist_loggers (length conf.blacklist)) _ _ (λ _. b)
              λ room.
                if_cases P (not (member conf.blacklist id)) _ _
                  (λ new. record {
                    unique = (ground (arith, new), b.unique);
                    unmanaged = (free, b.unmanaged);
                    bounded = ground (arith, room);
                  })
                  (λ _. b)

-- Whatever the array holds, the loading keeps a black list that has no logger twice, none that is
-- managed, and no more than ten thousand.
pub load_loggers_blacklist-IsBlacklist :
    (ids : List Text) (conf : Configuration)
    → IsBlacklist conf
    → IsBlacklist (load_loggers_blacklist ids conf).0
unfolding load_loggers_blacklist
load_loggers_blacklist-IsBlacklist [] conf b = b
load_loggers_blacklist-IsBlacklist (id ∷ ids) conf b =
    load_loggers_blacklist-IsBlacklist ids (blacklist_one id conf).0
      (blacklist_one-IsBlacklist id conf b)
