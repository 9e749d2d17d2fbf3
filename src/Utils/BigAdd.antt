-- ===== src/Utils/BigAdd.antt =====
-- `Utils::bigAdd` (src/utils/utils.cc), the addition of two decimal strings, and the
-- `std::to_string` of its callers. Bytes are read as digits: a byte below '0' does not occur.
pub mod Value
pub mod Sum
use mathlib.Core.List.{reverse}
use residue.Prelude.{
  ℕ, zero, suc, ◌+◌, ◌-◌, ◌/◌, ◌%◌, Option, none, some, [], ◌∷◌, ◌++◌, Text, length, replicate, max,
  ltb, ◌==◌, if◌then◌else◌,
}

-- The λ handed to `std::transform`: one column, with the carry in and out.
pub column : ℕ → ℕ → ℕ → ℕ × ℕ
column carry x y =
    let z = (x - b'0') + (y - b'0') + carry in if ltb 9 z then (z - 10 + b'0', 1) else (z + b'0', 0)

-- `std::transform` over the reversed strings: the digits, lowest first, and the last carry.
pub add_columns : ℕ → Text → Text → Text × ℕ
unfolding column
add_columns carry [] ys = ([], carry)
add_columns carry (x ∷ xs) [] = ([], carry)
add_columns carry (x ∷ xs) (y ∷ ys) =
    let (z, c) = column carry x y in let (zs, last) = add_columns c xs ys in (z ∷ zs, last)

-- `substr(find_first_not_of("0"))`, if there is such a position.
pub strip_zeros : Text → Option Text
strip_zeros [] = none
strip_zeros (c ∷ cs) = if c == b'0' then strip_zeros cs else some (c ∷ cs)

pub pad : ℕ → Text → Text
pad n s = replicate (n - length s) b'0' ++ s

abbrev pub or_else : Option Text → Text → Text
or_else none t = t
or_else (some s) t = s

-- The sum before its leading zeros go: one byte more than the longer operand.
pub raw_sum : Text → Text → Text
unfolding add_columns pad
raw_sum dest src =
    let n = max (length dest) (length src) in
    let (digits, carry) = add_columns 0 (reverse (pad n dest)) (reverse (pad n src)) in
    reverse (digits ++ (carry + b'0') ∷ [])

unfoldable pub big_add : Text → Text → Text
unfolding raw_sum strip_zeros
big_add dest src = let result = raw_sum dest src in or_else (strip_zeros result) result

-- `std::to_string` of an unsigned number; `n` digits at most are asked for by the fuel.
pub digits_of : ℕ → ℕ → Text → Text
digits_of zero n acc = acc
digits_of (suc fuel) n acc =
    let rest = digits_of fuel (n / 10) ((n % 10 + b'0') ∷ acc) in
    if ltb n 10 then (n + b'0') ∷ acc else rest

unfoldable pub to_string : ℕ → Text
unfolding digits_of
to_string n = digits_of (suc n) n []
