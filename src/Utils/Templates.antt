-- ===== src/Utils/Templates.antt =====
-- The replacement in file name templates: `Utils::replaceFirstWithEscape` and `Utils::replaceAll`
-- (src/utils/utils.cc), over the functions of `std::string` that they call.
pub mod Find
pub mod Expand
pub mod Pass
pub mod Escapes
use mathlib.Core.Option
use residue.Prelude.{
  get_or, ℕ, zero, suc, ◌+◌, ◌-◌, Bool, true, false, ◌&&◌, Option, none, some, [], ◌∷◌, ◌++◌, ltb,
  ◌==◌, if◌then◌else◌, length, take, drop, Text, codes, text_eq, is_empty,
}

-- `str.compare(0, start.length(), start) == 0`, as in `Utils::startsWith`.
unfoldable pub starts_with : Text → Text → Bool
starts_with str [] = true
starts_with [] (c ∷ start) = false
starts_with (d ∷ str) (c ∷ start) = d == c && starts_with str start

-- The first place of an occurrence, if there is one.
unfoldable pub find_in : Text → Text → Option ℕ
find_in what [] = if is_empty what then some 0 else none
find_in what (c ∷ str) =
    if starts_with (c ∷ str) what then some 0 else Option.map suc (find_in what str)

-- `str.find(what, from)`, with `none` for `npos`.
unfoldable pub find : Text → Text → ℕ → Option ℕ
unfolding find_in
find str what from =
    if ltb (length str) from
    then none
    else Option.map (λ (n : ℕ). from + n) (find_in what (drop from str))

-- `str.erase(at, 1)`.
abbrev pub erase : Text → ℕ → Text
erase str at = take at str ++ drop (suc at) str

-- `str.replace(at, len, by)`.
abbrev pub replace : Text → ℕ → ℕ → Text → Text
replace str at len by = take at str ++ (by ++ drop (at + len) str)

module _ (what with : Text) (specifier : ℕ) where
  -- One round of the loop, which goes on with what is given for it.
  pub round : (Text → ℕ → Text) → Text → Option ℕ → Text
  round go_on str none = str
  round go_on str (some at) =
      let unescaped = go_on (erase str (at - 1)) (at + 2) in
      if ltb 0 at && get_or 0 str (at - 1) == specifier
      then unescaped
      else replace str at (length what) with

  -- The loop searches from one behind the last place on, the first time from the start.
  pub search_on : ℕ → Text → ℕ → Text
  unfolding find round
  search_on zero str from = str
  search_on (suc fuel) str from = round (search_on fuel) str (find str what from)

  unfoldable pub replace_first_with_escape : Text → Text
  unfolding search_on
  replace_first_with_escape str = search_on (suc (length str)) str 0

-- The loop of `replaceAll` without `forceFull`, which counts its rounds up to 5000.
pub replace_on : Text → Text → ℕ → ℕ → Text → ℕ → ℕ → Text
unfolding find
replace_on what by incr zero str from count = str
replace_on what by incr (suc fuel) str from count = elim (find str what from) [
  | none ↦ str
  | some at ↦
      let replaced = replace str at (length what) by in
      let rest = replace_on what by incr fuel replaced (at + incr) (count + 1) in
      if count == 5000
      then codes "error Utils::replaceAll => <too many occurrences>. See <incr> parameter"
      else rest
]

-- The search starts at `npos + incr`, which is one less than `incr`; 5001 rounds are all that there
-- are.
unfoldable pub replace_all : Text → Text → ℕ → Text → Text
unfolding replace_on
replace_all what by incr str =
    if text_eq what by then str else replace_on what by incr 5001 str (incr - 1) 0
