-- ===== src/Examples/Numbers.antt =====
-- The theorems on the registry and on its counters, at work.
use residue.Core.Registry.{initial}
use residue.Core.Registry.Calls.{Call, adds, receives, resets, Inv, run, run-initial-Inv}
use residue.Utils.BigAdd.{big_add}
use residue.Utils.BigAdd.Value.{IsDigit, value}
use residue.Utils.BigAdd.Sum.{starts_with_zero, value-big_add}
use residue.Examples.Data.{alice}
use residue.Prelude.{◌+◌, ◌≡◌, ◌⊎◌, false, List, [], ◌∷◌, arith, All, codes}

value-big_add_example :
    (value (big_add (codes "99") (codes "7")) ≡ value (codes "99") + value (codes "7"))
    × All IsDigit (big_add (codes "99") (codes "7"))
    × ((value (codes "99") + value (codes "7") ≡ 0)
        ⊎ (starts_with_zero (big_add (codes "99") (codes "7")) ≡ false))
value-big_add_example = value-big_add (codes "99") (codes "7") (omega arith) (omega arith)

abbrev calls : List Call
calls = adds alice ∷ receives 12 ∷ receives 30 ∷ resets ∷ receives 7 ∷ []

run-initial-Inv_example : Inv (run initial calls) 7 0
run-initial-Inv_example = run-initial-Inv calls
