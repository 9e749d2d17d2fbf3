-- ===== src/Utils/BigAdd/Sum.antt =====
-- `Utils::bigAdd` and `std::to_string` (src/utils/utils.cc) against the values of their strings.
use mathlib.Core.List.{reverse}
use residue.Prelude.{
  ℕ, zero, suc, ◌+◌, ◌-◌, ◌/◌, ◌%◌, ◌≤◌, ◌<◌, max, ◌≡◌, refl, ap, ◌∙◌, subst, ◌⊎◌, inl, inr, Bool,
  false, none, some, [], ◌∷◌, ◌++◌, arith, ltb, ◌==◌, Bool-cases, Option-cases, length, All, Text,
  length-reverse, All-append, All-reverse,
}
use residue.Utils.BigAdd.{
  add_columns, strip_zeros, pad, or_else, raw_sum, big_add, digits_of, to_string,
}
use residue.Utils.BigAdd.Value.{
  IsDigit, value, value_from, value-reverse, low_first-reverse, low_first-add_columns,
  add_columns_digits, value-pad, length-pad, pad_digits,
}

abbrev pub starts_with_zero : Text → Bool
starts_with_zero [] = false
starts_with_zero (c ∷ s) = c == b'0'

length-reverse-pad : (n : ℕ) (s : Text) → length s ≤ n → length (reverse (pad n s)) ≡ n
length-reverse-pad n s h = length-reverse (pad n s) ∙ length-pad n s h

value-raw_sum : (d s : Text) → value (raw_sum d s) ≡ value d + value s
unfolding raw_sum
value-raw_sum d s =
    let n = max (length d) (length s) in
    omega (
      arith,
      value-reverse (
          (add_columns 0 (reverse (pad n d)) (reverse (pad n s))).0
          ++ ((add_columns 0 (reverse (pad n d)) (reverse (pad n s))).1 + b'0') ∷ []),
      low_first-add_columns (reverse (pad n d)) (reverse (pad n s)) 0 (
          omega
            (arith, length-reverse-pad n d (omega arith), length-reverse-pad n s (omega arith))),
      low_first-reverse (pad n d),
      low_first-reverse (pad n s),
      value-pad n d,
      value-pad n s,
    )

raw_sum_digits : (d s : Text) → All IsDigit d → All IsDigit s → All IsDigit (raw_sum d s)
unfolding raw_sum
raw_sum_digits d s hd hs =
    let n = max (length d) (length s) in
    let h =
      add_columns_digits (reverse (pad n d)) (reverse (pad n s)) 0 (omega arith)
        (All-reverse IsDigit (pad n d) (pad_digits n d hd))
        (All-reverse IsDigit (pad n s) (pad_digits n s hs)) in
    All-reverse IsDigit _ (All-append IsDigit _ (_ ∷ []) h.0 ((omega arith, omega arith), tt))

strip_zeros-none : (s : Text) → strip_zeros s ≡ none → value_from 0 s ≡ 0
unfolding strip_zeros value_from
strip_zeros-none [] e = refl
strip_zeros-none (c ∷ s) e = elim (Bool-cases (c == b'0')) [
  | inl z ↦ ap (λ (a : ℕ). value_from a s) (ground arith) ∙ strip_zeros-none s (ground arith)
  | inr p ↦ ground arith
]

strip_zeros-some :
    (s t : Text)
    → strip_zeros s ≡ some t
    → All IsDigit s
    → (value_from 0 t ≡ value_from 0 s) × All IsDigit t × (starts_with_zero t ≡ false)
unfolding strip_zeros value_from
strip_zeros-some [] t e h = ground arith
strip_zeros-some (c ∷ s) t e h = elim (Bool-cases (c == b'0')) [
  | inl z ↦
      let ih = strip_zeros-some s t (ground arith) h.1 in
      let same : c - b'0' ≡ 0 = ground arith in
      (ih.0 ∙ ap (λ (a : ℕ). value_from a s) (omega arith), ih.1, ih.2)
  | inr p ↦
      let e' : (c ∷ s) ≡ t = ground arith in
      subst
        (λ u.
          (value_from 0 u ≡ value_from 0 (c ∷ s)) × All IsDigit u × (starts_with_zero u ≡ false))
        e' (refl, h, p)
]

-- Leading zeros go, and nothing else.
strip_zeros_lem :
    (s : Text)
    → All IsDigit s
    → let r = or_else (strip_zeros s) s in
      (value r ≡ value s) × All IsDigit r × ((value s ≡ 0) ⊎ (starts_with_zero r ≡ false))
unfolding value
strip_zeros_lem s h = elim (Option-cases (strip_zeros s)) [
  | inl e ↦ rw e (refl, h, inl (strip_zeros-none s e))
  | inr (t, e) ↦ rw e (let p = strip_zeros-some s t e h in (p.0, p.1, inr p.2))
]

-- A sum of two decimal strings is decimal, stands for the sum of their values, and has no leading
-- zero unless it is zero.
pub value-big_add :
    (d s : Text)
    → All IsDigit d
    → All IsDigit s
    → (value (big_add d s) ≡ value d + value s)
      × All IsDigit (big_add d s)
      × ((value d + value s ≡ 0) ⊎ (starts_with_zero (big_add d s) ≡ false))
unfolding big_add
value-big_add d s hd hs =
    rw (← value-raw_sum d s) (strip_zeros_lem (raw_sum d s) (raw_sum_digits d s hd hs))

value-digits_of :
    (fuel n : ℕ) (acc : Text) → n < fuel → value_from 0 (digits_of fuel n acc) ≡ value_from n acc
unfolding digits_of value_from
value-digits_of zero n acc h = absurd (omega arith)
value-digits_of (suc fuel) n acc h = elim (Bool-cases (ltb n 10)) [
  | inl small ↦ rw (small, digits_of) (ap (λ (a : ℕ). value_from a acc) (omega arith))
  | inr big ↦
      rw (big, digits_of)
        (value-digits_of fuel (n / 10) ((n % 10 + b'0') ∷ acc) (ground arith)
          ∙ ap (λ (a : ℕ). value_from a acc) (omega arith))
]

pub value-to_string : (n : ℕ) → value (to_string n) ≡ n
unfolding to_string value value_from
value-to_string n = value-digits_of (suc n) n [] (omega arith)

digits_of_digits : (fuel n : ℕ) (acc : Text) → All IsDigit acc → All IsDigit (digits_of fuel n acc)
unfolding digits_of
digits_of_digits zero n acc h = h
digits_of_digits (suc fuel) n acc h =
    ground (
      arith,
      digits_of_digits fuel (n / 10) ((n % 10 + b'0') ∷ acc) ((omega arith, omega arith), h),
    )

pub to_string_digits : (n : ℕ) → All IsDigit (to_string n)
unfolding to_string
to_string_digits n = digits_of_digits (suc n) n [] tt
