-- ===== src/Utils/Strings.antt =====
-- The tests on texts of `Utils`, their letters and their blanks (src/utils/utils.h, utils.cc).
use residue.Prelude.{
  ℕ, ◌+◌, Bool, true, false, ◌&&◌, ◌||◌, List, [], ◌∷◌, ◌++◌, map, ltb, leb, ◌==◌, if◌then◌else◌,
  Text, codes, text_eq, is_empty,
}

abbrev pub contains : Text → ℕ → Bool
contains [] c = false
contains (x ∷ xs) c = x == c || contains xs c

-- `find_first_not_of(chars) == npos`.
abbrev pub consists_of : Text → Text → Bool
consists_of chars [] = true
consists_of chars (c ∷ cs) = contains chars c && consists_of chars cs

unfoldable pub is_alpha_numeric : Text → Text → Bool
is_alpha_numeric str exceptions =
    consists_of
      (codes "abcdefghijklmnopqrstuvwxyzABCDEFGHIJKLMNOPQRSTUVWXYZ0123456789" ++ exceptions) str

abbrev pub lower : ℕ → ℕ
lower c = if leb 65 c && leb c 90 then c + 32 else c

abbrev pub to_lower : Text → Text
to_lower s = map lower s

-- `operator<` of strings.
unfoldable pub text_lt : Text → Text → Bool
text_lt [] [] = false
text_lt [] (b ∷ t) = true
text_lt (a ∷ s) [] = false
text_lt (a ∷ s) (b ∷ t) = ltb a b || a == b && text_lt s t

-- `insert` into a `std::set<std::string>`.
unfoldable pub insert_sorted : Text → List Text → List Text
unfolding text_lt
insert_sorted a [] = a ∷ []
insert_sorted a (x ∷ xs) =
    let rest = x ∷ insert_sorted a xs in
    if text_eq a x then x ∷ xs else if text_lt a x then a ∷ (x ∷ xs) else rest

-- `isspace`.
abbrev pub is_space : ℕ → Bool
is_space c = c == 32 || leb 9 c && leb c 13

unfoldable pub ltrim : Text → Text
ltrim [] = []
ltrim (c ∷ s) = let rest = ltrim s in if is_space c then rest else c ∷ s

-- From the last byte that is no space on, the end is left out.
unfoldable pub rtrim : Text → Text
rtrim [] = []
rtrim (c ∷ s) = let rest = rtrim s in if is_space c && is_empty rest then [] else c ∷ rest

abbrev pub trim : Text → Text
trim s = ltrim (rtrim s)
