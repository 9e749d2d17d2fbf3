-- ===== src/Utils/Templates/Find.antt =====
-- What `std::string::find` finds, for the replacements of `Utils` (src/utils/utils.cc).
use mathlib.Core.Option
use residue.Utils.Templates.{starts_with, find_in, find}
use residue.Prelude.{
  ℕ, ◌+◌, ◌≡◌, refl, ap, ◌≢◌, ◌⊎◌, inl, inr, true, false, Option, none, some, [], ◌∷◌, ◌++◌,
  append-nil, arith, ltb, ltb→lt, Bool-cases, length, drop, length-append, Text, if_cases,
  drop-append,
}

pub starts_with_split :
    (s what : Text) → starts_with s what ≡ true → s ≡ what ++ drop (length what) s
unfolding starts_with
starts_with_split s [] h = refl
starts_with_split [] (c ∷ what) h = cc
starts_with_split (d ∷ s) (c ∷ what) h = ground (arith, starts_with_split s what)

pub starts_with-append : (what s : Text) → starts_with (what ++ s) what ≡ true
unfolding starts_with
starts_with-append [] s = refl
starts_with-append (c ∷ what) s = ground (arith, starts_with-append what s)

-- No occurrence starts in the text, before the rest that stands behind it.
abbrev pub Clear : Text → Text → Text → Type 0
Clear what [] rest = Unit
Clear what (c ∷ pre) rest = (starts_with (c ∷ (pre ++ rest)) what ≡ false) × Clear what pre rest

abbrev pub FoundAt : Text → Text → Type 0
FoundAt what s =
    (pre : Text) × (post : Text) × (s ≡ pre ++ (what ++ post))
    × (find_in what s ≡ some (length pre))
    × Clear what pre (what ++ post)

pub find_in-cases :
    (what s : Text) → what ≢ [] → ((find_in what s ≡ none) × Clear what s []) ⊎ FoundAt what s
unfolding find_in
find_in-cases [] s ne = absurd (ne refl)
find_in-cases (w ∷ what) [] ne = inl (refl, tt)
find_in-cases (w ∷ what) (c ∷ s) ne = elim (Bool-cases (starts_with (c ∷ s) (w ∷ what))) [
  | inl here ↦ inr (
    [],
    drop (length (w ∷ what)) (c ∷ s),
    starts_with_split (c ∷ s) (w ∷ what) here,
    rw here refl,
    tt,
  )
  | inr no_match ↦ elim (find_in-cases (w ∷ what) s ne) [
    | inl (absent, clear) ↦ inl (rw (no_match, absent) refl, (rw (append-nil s) no_match, clear))
    | inr (pre, post, split, found, clear) ↦ inr (
      c ∷ pre,
      post,
      ap (λ l. c ∷ l) split,
      rw (no_match, found) refl,
      (rw (← split) no_match, clear),
    )
  ]
]

pub find-append :
    (done todo what : Text)
    → find (done ++ todo) what (length done)
      ≡ Option.map (λ (n : ℕ). length done + n) (find_in what todo)
unfolding find
find-append done todo what =
    if_cases (λ (o : Option ℕ). o ≡ Option.map (λ (n : ℕ). length done + n) (find_in what todo))
      (ltb (length (done ++ todo)) (length done)) _ _
      (λ beyond. absurd (omega (arith, ltb→lt _ _ beyond, length-append done todo)))
      (λ _. rw (drop-append done todo) refl)
