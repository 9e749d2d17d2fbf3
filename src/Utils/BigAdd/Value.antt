-- ===== src/Utils/BigAdd/Value.antt =====
-- What a decimal string stands for, and the columns of `Utils::bigAdd` (src/utils/utils.cc).
use mathlib.Core.List.{reverse, reverse-cons, reverse-reverse}
use residue.Prelude.{
  ℕ, zero, suc, ◌+◌, ◌-◌, ◌*◌, ◌≤◌, ◌≡◌, refl, sym, ap, ◌∙◌, [], ◌∷◌, ◌++◌, arith, length,
  replicate, All, length-append, length-replicate, Text, All-append,
}
use residue.Utils.BigAdd.{add_columns, pad}

abbrev pub IsDigit : ℕ → Type 0
IsDigit c = (b'0' ≤ c) × (c ≤ b'9')

-- Reads a string of digits from the left, after `acc`.
unfoldable pub value_from : ℕ → Text → ℕ
value_from acc [] = acc
value_from acc (c ∷ cs) = value_from (acc * 10 + (c - b'0')) cs

unfoldable pub value : Text → ℕ
unfolding value_from
value s = value_from 0 s

-- The value of digits that stand lowest first.
pub low_first : Text → ℕ
low_first [] = 0
low_first (c ∷ cs) = (c - b'0') + 10 * low_first cs

pub value_from-append :
    (s : Text) (acc c : ℕ) → value_from acc (s ++ c ∷ []) ≡ value_from acc s * 10 + (c - b'0')
unfolding value_from
value_from-append [] acc c = refl
value_from-append (d ∷ s) acc c = value_from-append s (acc * 10 + (d - b'0')) c

pub value-reverse : (s : Text) → value (reverse s) ≡ low_first s
unfolding value low_first
value-reverse [] = refl
value-reverse (c ∷ s) =
    omega (arith, ap value (reverse-cons c s), value_from-append (reverse s) 0 c, value-reverse s)

pub low_first-reverse : (s : Text) → low_first (reverse s) ≡ value s
low_first-reverse s = sym (value-reverse (reverse s)) ∙ ap value (reverse-reverse s)

-- The digits of the columns, with the last carry on top, stand for the sum.
pub low_first-add_columns :
    (xs ys : Text) (carry : ℕ)
    → length xs ≡ length ys
    → let (zs, last) = add_columns carry xs ys in
      low_first (zs ++ (last + b'0') ∷ []) ≡ low_first xs + low_first ys + carry
unfolding add_columns low_first
low_first-add_columns [] [] carry h = omega arith
low_first-add_columns [] (y ∷ ys) carry h = absurd (omega arith)
low_first-add_columns (x ∷ xs) [] carry h = absurd (omega arith)
low_first-add_columns (x ∷ xs) (y ∷ ys) carry h = ground (
  arith,
  low_first-add_columns xs ys 0 (omega arith),
  low_first-add_columns xs ys 1 (omega arith),
)

pub add_columns_digits :
    (xs ys : Text) (carry : ℕ)
    → carry ≤ 1
    → All IsDigit xs
    → All IsDigit ys
    → let (zs, last) = add_columns carry xs ys in All IsDigit zs × (last ≤ 1)
unfolding add_columns
add_columns_digits [] ys carry c hx hy = (tt, c)
add_columns_digits (x ∷ xs) [] carry c hx hy = (tt, c)
add_columns_digits (x ∷ xs) (y ∷ ys) carry c hx hy = ground (
  arith,
  add_columns_digits xs ys 0 (omega arith) hx.1 hy.1,
  add_columns_digits xs ys 1 (omega arith) hx.1 hy.1,
)

value_from-zeros : (k : ℕ) (s : Text) → value_from 0 (replicate k b'0' ++ s) ≡ value_from 0 s
unfolding value_from
value_from-zeros zero s = refl
value_from-zeros (suc k) s = value_from-zeros k s

pub value-pad : (n : ℕ) (s : Text) → value (pad n s) ≡ value s
unfolding value pad
value-pad n s = value_from-zeros (n - length s) s

pub length-pad : (n : ℕ) (s : Text) → length s ≤ n → length (pad n s) ≡ n
unfolding pad
length-pad n s h = omega (
  arith,
  length-append (replicate (n - length s) b'0') s,
  length-replicate {A = ℕ} (n - length s) b'0',
)

zeros_digits : (k : ℕ) → All IsDigit (replicate k b'0')
zeros_digits zero = tt
zeros_digits (suc k) = (omega arith, zeros_digits k)

pub pad_digits : (n : ℕ) (s : Text) → All IsDigit s → All IsDigit (pad n s)
unfolding pad
pad_digits n s h = All-append IsDigit (replicate (n - length s) b'0') s (zeros_digits _) h
