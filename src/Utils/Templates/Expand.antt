-- ===== src/Utils/Templates/Expand.antt =====
-- A description of `Utils::replaceFirstWithEscape` (src/utils/utils.cc) by one pass over the text.
use residue.Utils.Templates.{starts_with}
use residue.Prelude.{ℕ, zero, suc, ◌&&◌, [], ◌∷◌, ◌++◌, ◌==◌, if◌then◌else◌, length, drop, Text}

module _ (what with : Text) (specifier : ℕ) where
  -- An occurrence behind the specifier loses this and stays; the first other one is replaced, and
  -- what follows is left alone. The number is of the bytes that are to be copied as they are.
  unfoldable pub expand : ℕ → Text → Text
  expand skip [] = []
  expand (suc skip) (c ∷ str) = c ∷ expand skip str
  expand zero (c ∷ str) =
      let skipped = expand (length what) str in
      let kept = c ∷ expand 0 str in
      if starts_with (c ∷ str) what
      then with ++ drop (length what) (c ∷ str)
      else if c == specifier && starts_with str what
      then skipped
      else kept
