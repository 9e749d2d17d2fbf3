-- ===== src/Cli/CommandHandler/Words.antt =====
-- What the reading of a line (src/cli/command-handler.cc) takes it apart into.
use residue.Cli.CommandHandler.{params_behind, split_input}
use residue.Utils.Templates.{starts_with, find_in, find}
use mathlib.Core.Option
use residue.Prelude.{
  ℕ, zero, suc, ◌+◌, ◌-◌, ◌≤◌, ◌<◌, ◌≡◌, refl, sym, ap, ◌∙◌, ◌⊎◌, inl, inr, true, false, Option,
  none, some, List, [], ◌∷◌, arith, ltb, ◌==◌, if◌then◌else◌, Bool-cases, length, take, drop, Text,
  codes,
}

abbrev pub put_first : ℕ → List Text → List Text
put_first c [] = (c ∷ []) ∷ []
put_first c (w ∷ ws) = (c ∷ w) ∷ ws

-- The words between blanks, an empty one between two of them.
unfoldable pub words : Text → List Text
words [] = [] ∷ []
words (c ∷ s) = let rest = words s in if c == 32 then [] ∷ rest else put_first c rest

drop_nil : (n : ℕ) → drop {A = ℕ} n [] ≡ []
drop_nil zero = refl
drop_nil (suc n) = refl

drop-drop : (n m : ℕ) (s : Text) → drop m (drop n s) ≡ drop (n + m) s
drop-drop zero m s = let e : zero + m ≡ m = omega arith in ap (λ k. drop k s) (sym e)
drop-drop (suc n) m [] = drop_nil m ∙ sym (drop_nil (suc n + m))
drop-drop (suc n) m (c ∷ s) =
    let e : suc n + m ≡ suc (n + m) = omega arith in
    drop-drop n m s ∙ ap (λ k. drop k (c ∷ s)) (sym e)

pub no_word : (find_in (codes " ") [] ≡ none) × (words [] ≡ [] ∷ [])
unfolding find_in words
no_word = (refl, refl)

pub at_blank :
    (c : ℕ) (s : Text)
    → (c == 32) ≡ true
    → (find_in (codes " ") (c ∷ s) ≡ some 0) × (words (c ∷ s) ≡ [] ∷ words s)
unfolding find_in words starts_with
at_blank c s blank = (rw blank refl, rw blank refl)

pub at_letter :
    (c : ℕ) (s : Text)
    → (c == 32) ≡ false
    → (find_in (codes " ") (c ∷ s) ≡ Option.map suc (find_in (codes " ") s))
      × (words (c ∷ s) ≡ put_first c (words s))
unfolding find_in words starts_with
at_letter c s letter = (rw letter refl, rw letter refl)

-- The first blank, and the words before and behind it.
words-find_in :
    (s : Text)
    → ((find_in (codes " ") s ≡ none) × (words s ≡ s ∷ []))
      ⊎ ((n : ℕ) × (find_in (codes " ") s ≡ some n)
          × (n < length s)
          × (words s ≡ take n s ∷ words (drop (suc n) s)))
words-find_in [] = inl no_word
words-find_in (c ∷ s) = elim (Bool-cases (c == 32)) [
  | inl blank ↦ let (found, split) = at_blank c s blank in inr (0, found, omega arith, split)
  | inr letter ↦
      let (moved, put) = at_letter c s letter in
      elim (words-find_in s) [
        | inl (absent, whole) ↦
            inl (moved ∙ ap (Option.map suc) absent, put ∙ ap (put_first c) whole)
        | inr (n, found, inside, split) ↦ inr (
          suc n,
          moved ∙ ap (Option.map suc) found,
          omega (arith, inside),
          put ∙ ap (put_first c) split,
        )
      ]
]

length-drop_le : (n : ℕ) (s : Text) → n ≤ length s → length (drop n s) + n ≡ length s
length-drop_le zero s h = omega arith
length-drop_le (suc n) [] h = omega (arith, h)
length-drop_le (suc n) (c ∷ s) h = omega (arith, length-drop_le n s (omega (arith, h)))

find_from :
    (input : Text) (from : ℕ)
    → from ≤ length input
    → find input (codes " ") from
      ≡ Option.map (λ (n : ℕ). from + n) (find_in (codes " ") (drop from input))
unfolding find
find_from input from h = let e : ltb (length input) from ≡ false = ground (arith, h) in rw e refl

-- The loop finds the words behind the blank that it has come to.
params_behind_lem :
    (fuel : ℕ) (input : Text) (last_pos : ℕ)
    → last_pos < length input
    → length input ≤ last_pos + fuel
    → params_behind fuel input last_pos ≡ words (drop (last_pos + 1) input)
unfolding params_behind
params_behind_lem zero input p inside enough = absurd (omega (arith, inside, enough))
params_behind_lem (suc fuel) input p inside enough =
    let rest = drop (p + 1) input in
    let at = find_from input (p + 1) (omega (arith, inside)) in
    let step = λ (o : Option ℕ). elim o as (λ _. List Text) [
      | none ↦ rest ∷ []
      | some pos ↦ take ((pos - p) - 1) rest ∷ params_behind fuel input pos
    ] in
    elim (words-find_in rest) [
      | inl (absent, whole) ↦
          ap step (at ∙ ap (Option.map (λ (n : ℕ). p + 1 + n)) absent) ∙ sym whole
      | inr (n, found, within, split) ↦
          let all = length-drop_le (p + 1) input (omega (arith, inside)) in
          let e : ((p + 1 + n) - p) - 1 ≡ n = omega arith in
          let next : p + 1 + n + 1 ≡ (p + 1) + suc n = omega arith in
          let behind =
            params_behind_lem fuel input (p + 1 + n) (omega (arith, within, all))
              (omega (arith, enough)) in
          ap step (at ∙ ap (Option.map (λ (n : ℕ). p + 1 + n)) found)
          ∙ (ap (λ k. take k rest ∷ params_behind fuel input (p + 1 + n)) e
              ∙ (ap (λ ws. take n rest ∷ ws)
                    (behind
                      ∙ (ap (λ k. words (drop k input)) next
                          ∙ ap words (sym (drop-drop (p + 1) (suc n) input))))
                  ∙ sym split))
    ]

-- An input is split into its words: the loop over the blanks ends within its fuel, and finds the words of
-- the reference definition.
pub split_input-words : (input : Text) → words input ≡ (split_input input).0 ∷ (split_input input).1
unfolding split_input
split_input-words input =
    let at = find_from input 0 (omega arith) in
    let pieces = λ (o : Option ℕ). elim o as (λ _. Text × List Text) [
      | none ↦ (input, [])
      | some pos ↦ (take pos input, params_behind (length input) input pos)
    ] in
    let whole = λ (r : Text × List Text). r.0 ∷ r.1 in
    elim (words-find_in input) [
      | inl (absent, one) ↦
          one ∙ sym (ap (λ o. whole (pieces o)) (at ∙ ap (Option.map (λ (n : ℕ). 0 + n)) absent))
      | inr (n, found, within, split) ↦
          let e : 0 + n ≡ n = omega arith in
          let next : suc n ≡ n + 1 = omega arith in
          split
          ∙ (ap (λ k. take n input ∷ words (drop k input)) next
              ∙ (ap (λ ws. take n input ∷ ws)
                    (sym (params_behind_lem (length input) input n within (omega arith)))
                  ∙ sym (
                      ap (λ o. whole (pieces o))
                        (at ∙ ap (Option.map (λ (n : ℕ). 0 + n)) found ∙ ap some e))))
    ]
