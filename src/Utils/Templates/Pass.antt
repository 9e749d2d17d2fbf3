-- ===== src/Utils/Templates/Pass.antt =====
-- What the one pass over a template does, by the way `Utils::replaceFirstWithEscape`
-- (src/utils/utils.cc) searches it.
use residue.Utils.Templates.{starts_with}
use residue.Utils.Templates.Expand.{expand}
use residue.Utils.Templates.Find.{starts_with-append, Clear}
use residue.Prelude.{
  ℕ, ◌≡◌, refl, sym, ap, ◌∙◌, subst, ◌⊎◌, inl, inr, Bool, true, false, ◌&&◌, [], ◌∷◌, ◌++◌,
  append_assoc, append-nil, arith, ◌==◌, ==_iff, length, drop, All, Text, drop-append,
}

-- A text, and its last byte if it has one.
pub last_cases : (s : Text) → (s ≡ []) ⊎ ((init : Text) × (c : ℕ) × (s ≡ init ++ c ∷ []))
last_cases [] = inl refl
last_cases (c ∷ s) = elim (last_cases s) [
  | inl e ↦ inr ([], c, ap (λ l. c ∷ l) e)
  | inr (init, d, e) ↦ inr (c ∷ init, d, ap (λ l. c ∷ l) e)
]

module _ (specifier a b : ℕ) (u with : Text) where
  abbrev pub what : Text
  what = specifier ∷ a ∷ b ∷ u

  abbrev pub IsPlain : ℕ → Type 0
  IsPlain c = (c == specifier) ≡ false

  abbrev pub expanded : ℕ → Text → Text
  expanded = expand what with specifier

  -- No specifier stands at the end.
  abbrev pub NotEscaping : Text → Type 0
  NotEscaping s = (s ≡ []) ⊎ ((init : Text) × (c : ℕ) × (s ≡ init ++ c ∷ []) × IsPlain c)

  starts-plain : (c : ℕ) (s : Text) → IsPlain c → starts_with (c ∷ s) what ≡ false
  unfolding starts_with
  starts-plain c s h = ground arith

  starts-nil : starts_with [] what ≡ false
  unfolding starts_with
  starts-nil = refl

  expand-skip : (v post : Text) → expanded (length v) (v ++ post) ≡ v ++ expanded 0 post
  unfolding expand
  expand-skip [] post = refl
  expand-skip (c ∷ v) post = ap (λ l. c ∷ l) (expand-skip v post)

  pub expand-plain : (v post : Text) → All IsPlain v → expanded 0 (v ++ post) ≡ v ++ expanded 0 post
  unfolding expand
  expand-plain [] post h = refl
  expand-plain (c ∷ v) post h =
      rw (starts-plain c (v ++ post) h.0, h.0) (ap (λ l. c ∷ l) (expand-plain v post h.1))

  replace_step :
      (c : ℕ) (s : Text)
      → starts_with (c ∷ s) what ≡ true
      → expanded 0 (c ∷ s) ≡ with ++ drop (length what) (c ∷ s)
  unfolding expand
  replace_step c s here = rw here refl

  skip_step :
      (s : Text)
      → starts_with (specifier ∷ s) what ≡ false
      → starts_with s what ≡ true
      → expanded 0 (specifier ∷ s) ≡ expanded (length what) s
  unfolding expand
  skip_step s other next = rw (other, next, (==_iff specifier specifier).1 refl) refl

  keep_step :
      (c : ℕ) (s : Text)
      → starts_with (c ∷ s) what ≡ false
      → (c == specifier && starts_with s what) ≡ false
      → expanded 0 (c ∷ s) ≡ c ∷ expanded 0 s
  unfolding expand
  keep_step c s other open_end = rw (other, open_end) refl

  and_false : (p : Bool) {q : Bool} → q ≡ false → (p && q) ≡ false
  and_false p h = ground arith

  pub expand-Clear : (s : Text) → Clear what s [] → expanded 0 s ≡ s
  unfolding expand
  expand-Clear [] clear = refl
  expand-Clear (c ∷ []) clear = keep_step c [] clear.0 (and_false (c == specifier) starts-nil)
  expand-Clear (c ∷ d ∷ s) clear =
      keep_step c (d ∷ s) (rw (← append-nil (d ∷ s)) clear.0)
        (and_false (c == specifier) (rw (← append-nil s) clear.1.0))
      ∙ ap (λ l. c ∷ l) (expand-Clear (d ∷ s) clear.1)

  Clear-next :
      (init : Text) (c : ℕ) (rest : Text)
      → Clear what (init ++ c ∷ []) rest
      → starts_with ((init ++ c ∷ []) ++ rest) what ≡ false
  Clear-next [] c rest clear = clear.0
  Clear-next (d ∷ init) c rest clear = clear.0

  Clear-last :
      (init : Text) (c : ℕ) (rest : Text)
      → Clear what (init ++ c ∷ []) rest
      → starts_with (c ∷ rest) what ≡ false
  Clear-last [] c rest clear = clear.0
  Clear-last (d ∷ init) c rest clear = Clear-last init c rest clear.1

  -- What is clear is copied, up to its last byte.
  expand-walk :
      (init : Text) (c : ℕ) (rest : Text)
      → Clear what (init ++ c ∷ []) rest
      → expanded 0 ((init ++ c ∷ []) ++ rest) ≡ init ++ expanded 0 (c ∷ rest)
  expand-walk [] c rest clear = refl
  expand-walk (d ∷ init) c rest clear =
      keep_step d ((init ++ c ∷ []) ++ rest) clear.0
        (and_false (d == specifier) (Clear-next init c rest clear.1))
      ∙ ap (λ l. d ∷ l) (expand-walk init c rest clear.1)

  expand-what : (post : Text) → expanded 0 (what ++ post) ≡ with ++ post
  expand-what post =
      replace_step specifier (a ∷ b ∷ (u ++ post)) (starts_with-append what post)
      ∙ ap (λ l. with ++ l) (drop-append what post)

  -- Up to an occurrence that is replaced.
  pub expand-replaced :
      (pre post : Text)
      → Clear what pre (what ++ post)
      → NotEscaping pre
      → expanded 0 (pre ++ (what ++ post)) ≡ pre ++ (with ++ post)
  expand-replaced pre post clear (inl e) = rw e (expand-what post)
  expand-replaced pre post clear (inr (init, c, e, plain)) = rw e (
      expand-walk init c (what ++ post) clear'
      ∙ (ap (λ l. init ++ l)
            (keep_step c (what ++ post) (Clear-last init c (what ++ post) clear') (ground arith)
              ∙ ap (λ l. c ∷ l) (expand-what post))
          ∙ sym (append_assoc init (c ∷ []) (with ++ post))))
    where
      clear' : Clear what (init ++ c ∷ []) (what ++ post)
      clear' = subst (λ (s : Text). Clear what s (what ++ post)) e clear

  -- Up to one that is escaped.
  pub expand-escaped :
      (init post : Text)
      → Clear what (init ++ specifier ∷ []) (what ++ post)
      → expanded 0 ((init ++ specifier ∷ []) ++ (what ++ post)) ≡ init ++ (what ++ expanded 0 post)
  expand-escaped init post clear =
      expand-walk init specifier (what ++ post) clear
      ∙ ap (λ l. init ++ l)
          (skip_step (what ++ post) (Clear-last init specifier (what ++ post) clear)
              (starts_with-append what post)
            ∙ expand-skip what post)
