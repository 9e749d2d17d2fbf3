-- ===== src/Cli/CommandHandler/Lines.antt =====
-- The words of a line (src/cli/command-handler.cc) make up the line.
use residue.Cli.CommandHandler.{split_input}
use residue.Cli.CommandHandler.Words.{
  put_first, words, split_input-words, no_word, at_blank, at_letter,
}
use residue.Prelude.{
  ℕ, ◌≡◌, refl, sym, ap, ◌∙◌, subst, inl, inr, false, List, [], ◌∷◌, ◌++◌, ◌==◌, ==_iff, Bool-cases,
  All, Text,
}

-- Words with a blank between two of them.
unfoldable pub join : List Text → Text
join [] = []
join (w ∷ []) = w
join (w ∷ v ∷ ws) = w ++ 32 ∷ join (v ∷ ws)

abbrev pub HasNoBlank : Text → Type 0
HasNoBlank w = All (λ c. (c == 32) ≡ false) w

join-put_first : (c : ℕ) (ws : List Text) → join (put_first c ws) ≡ c ∷ join ws
unfolding join
join-put_first c [] = refl
join-put_first c (w ∷ []) = refl
join-put_first c (w ∷ v ∷ ws) = refl

join-words : (s : Text) → join (words s) ≡ s
unfolding join
join-words [] = ap join (no_word.1)
join-words (c ∷ s) = elim (Bool-cases (c == 32)) [
  | inl blank ↦
      let is_blank : c ≡ 32 = (==_iff c 32).0 blank in
      let (cmd, params) = split_input s in
      ap join ((at_blank c s blank).1 ∙ ap (λ ws. [] ∷ ws) (split_input-words s))
      ∙ ap (λ t. 32 ∷ t) (ap join (sym (split_input-words s)) ∙ join-words s)
      ∙ ap (λ b. b ∷ s) (sym is_blank)
  | inr letter ↦
      ap join (at_letter c s letter).1 ∙ join-put_first c (words s) ∙ ap (λ t. c ∷ t) (join-words s)
]

put_first-HasNoBlank :
    (c : ℕ) (ws : List Text)
    → (c == 32) ≡ false
    → All HasNoBlank ws
    → All HasNoBlank (put_first c ws)
put_first-HasNoBlank c [] letter h = ((letter, tt), tt)
put_first-HasNoBlank c (w ∷ ws) letter h = ((letter, h.0), h.1)

words-HasNoBlank : (s : Text) → All HasNoBlank (words s)
words-HasNoBlank [] = subst (All HasNoBlank) (sym (no_word.1)) (tt, tt)
words-HasNoBlank (c ∷ s) = elim (Bool-cases (c == 32)) [
  | inl blank ↦ subst (All HasNoBlank) (sym (at_blank c s blank).1) (tt, words-HasNoBlank s)
  | inr letter ↦
      subst (All HasNoBlank) (sym (at_letter c s letter).1)
        (put_first-HasNoBlank c (words s) letter (words-HasNoBlank s))
]

-- The command and the parameters that an input is split into have no blank, and with a blank between
-- two of them they are the input: the loop ends within its fuel and leaves nothing out.
pub join-split_input :
    (input : Text)
    → let (cmd, params) = split_input input in
      (join (cmd ∷ params) ≡ input) × All HasNoBlank (cmd ∷ params)
join-split_input input =
    let (cmd, params) = split_input input in
    (
      ap join (sym (split_input-words input)) ∙ join-words input,
      subst (All HasNoBlank) (split_input-words input) (words-HasNoBlank input),
    )
