-- ===== src/Utils/Templates/Escapes.antt =====
-- The loop of `Utils::replaceFirstWithEscape` (src/utils/utils.cc) does what the one pass does.
use mathlib.Core.Option
use residue.Utils.Templates.{erase, replace, round, search_on, replace_first_with_escape}
use residue.Utils.Templates.Expand.{expand}
use residue.Utils.Templates.Find.{Clear, find_in-cases, find-append}
use residue.Utils.Templates.Pass.{
  last_cases, NotEscaping, expand-plain, expand-Clear, expand-replaced, expand-escaped,
}
use residue.Prelude.{
  ℕ, zero, suc, ◌+◌, ◌-◌, ◌<◌, ◌≡◌, refl, sym, ap, ◌∙◌, subst, ◌⊎◌, inl, inr, true, false, ◌&&◌,
  some, [], ◌∷◌, ◌++◌, append_assoc, append-nil, arith, ltb, ◌==◌, ==_iff, Bool-cases, length, All,
  length-append, Text, if_true, get_or, take-append, drop-append, drop-append_more, get_or-append,
}

module _ (specifier a b : ℕ) (u with : Text) where
  abbrev it : Text
  it = specifier ∷ a ∷ b ∷ u

  abbrev pass : Text → Text
  pass = expand it with specifier 0

  abbrev Open : Text → Type 0
  Open = NotEscaping specifier a b u with

  abbrev Plain : ℕ → Type 0
  Plain c = (c == specifier) ≡ false

  Open-end :
      (s rest : Text)
      → Open s
      → (ltb 0 (length s) && get_or 0 (s ++ rest) (length s - 1) == specifier) ≡ false
  Open-end s rest (inl e) = rw e refl
  Open-end s rest (inr (init, c, e, plain)) =
      let l : length s - 1 ≡ length init =
        omega (arith, ap length e, length-append init (c ∷ [])) in
      let last : get_or 0 (s ++ rest) (length s - 1) ≡ c =
        ap (get_or 0 (s ++ rest)) l
        ∙ (ap (λ t. get_or 0 (t ++ rest) (length init)) e
            ∙ (ap (λ t. get_or 0 t (length init)) (append_assoc init (c ∷ []) rest)
                ∙ get_or-append 0 init rest c)) in
      ground (arith, last, plain)

  replaced :
      (before post : Text)
      → replace (before ++ (it ++ post)) (length before) (length it) with ≡ before ++ (with ++ post)
  replaced before post =
      rw
        (
          take-append before (it ++ post),
          drop-append_more (length it) before (it ++ post),
          drop-append it post,
        )
        refl

  erased :
      (before rest : Text) (c : ℕ)
      → erase ((before ++ c ∷ []) ++ rest) (length before) ≡ before ++ rest
  erased before rest c =
      let e : suc (length before) ≡ length before + 1 = omega arith in
      rw
        (
          append_assoc before (c ∷ []) rest,
          take-append before (c ∷ rest),
          e,
          drop-append_more 1 before (c ∷ rest),
        )
        refl

  -- A round that replaces.
  round_replaced :
      (go_on : Text → ℕ → Text) (before post : Text)
      → Open before
      → round it with specifier go_on (before ++ (it ++ post)) (some (length before))
        ≡ before ++ (with ++ post)
  unfolding round
  round_replaced go_on before post h = rw (Open-end before (it ++ post) h) (replaced before post)

  length-snoc : (before : Text) (c : ℕ) → length (before ++ c ∷ []) ≡ suc (length before)
  length-snoc before c = omega (arith, length-append before (c ∷ []))

  -- A round that drops a specifier.
  round_escaped :
      (go_on : Text → ℕ → Text) (before post : Text)
      → round it with specifier go_on
          ((before ++ specifier ∷ []) ++ (it ++ post))
          (some (length (before ++ specifier ∷ [])))
        ≡ go_on
            ((before ++ (specifier ∷ a ∷ b ∷ [])) ++ (u ++ post))
            (length (before ++ (specifier ∷ a ∷ b ∷ [])))
  unfolding round
  round_escaped go_on before post =
      let str = (before ++ specifier ∷ []) ++ (it ++ post) in
      let l : length (before ++ specifier ∷ []) - 1 ≡ length before =
        omega (arith, length-snoc before specifier) in
      let last : get_or 0 str (length (before ++ specifier ∷ []) - 1) ≡ specifier =
        ap (get_or 0 str) l
        ∙ (ap (λ t. get_or 0 t (length before)) (append_assoc before (specifier ∷ []) (it ++ post))
            ∙ get_or-append 0 before (it ++ post) specifier) in
      let test : (ltb 0 (length (before ++ specifier ∷ []))
            && get_or 0 str (length (before ++ specifier ∷ []) - 1) == specifier)
          ≡ true =
        ground (arith, last, length-snoc before specifier) in
      let place : length (before ++ specifier ∷ []) + 2
          ≡ length (before ++ (specifier ∷ a ∷ b ∷ [])) =
        omega
          (arith, length-snoc before specifier, length-append before (specifier ∷ a ∷ b ∷ [])) in
      let text : erase str (length (before ++ specifier ∷ []) - 1)
          ≡ (before ++ (specifier ∷ a ∷ b ∷ [])) ++ (u ++ post) =
        ap (erase str) l
        ∙ (erased before (it ++ post) specifier
            ∙ sym (append_assoc before (specifier ∷ a ∷ b ∷ []) (u ++ post))) in
      if_true _ _ _ test ∙ (λ i. go_on (text i) (place i))

  -- The goal of a round that has found something.
  abbrev Done : (Text → ℕ → Text) → Text → Text → Text → Type 0
  Done go_on before pre post =
      round it with specifier go_on ((before ++ pre) ++ (it ++ post))
        (some (length (before ++ pre)))
      ≡ before ++ pass (pre ++ (it ++ post))

  Done-replaced :
      (go_on : Text → ℕ → Text) (before pre post : Text)
      → Clear it pre (it ++ post)
      → Open (before ++ pre)
      → Open pre
      → Done go_on before pre post
  Done-replaced go_on before pre post clear h k =
      round_replaced go_on (before ++ pre) post h
      ∙ (append_assoc before pre (with ++ post)
          ∙ ap (λ l. before ++ l) (sym (expand-replaced specifier a b u with pre post clear k)))

  Done-escaped :
      (go_on : Text → ℕ → Text) (before init post : Text)
      → All Plain u
      → Clear it (init ++ specifier ∷ []) (it ++ post)
      → go_on
          (((before ++ init) ++ (specifier ∷ a ∷ b ∷ [])) ++ (u ++ post))
          (length ((before ++ init) ++ (specifier ∷ a ∷ b ∷ [])))
        ≡ ((before ++ init) ++ (specifier ∷ a ∷ b ∷ [])) ++ pass (u ++ post)
      → Done go_on before (init ++ specifier ∷ []) post
  Done-escaped go_on before init post plain clear ih =
      let rest = u ++ pass post in
      ap (λ (t : Text). round it with specifier go_on (t ++ (it ++ post)) (some (length t)))
        (sym (append_assoc before init (specifier ∷ [])))
      ∙ (round_escaped go_on (before ++ init) post
          ∙ (ih
              ∙ (ap (λ l. ((before ++ init) ++ (specifier ∷ a ∷ b ∷ [])) ++ l)
                    (expand-plain specifier a b u with u post plain)
                  ∙ (append_assoc (before ++ init) (specifier ∷ a ∷ b ∷ []) rest
                      ∙ (append_assoc before init (specifier ∷ a ∷ b ∷ rest)
                          ∙ ap (λ l. before ++ l)
                              (sym (expand-escaped specifier a b u with init post clear)))))))

  search_on-pass :
      (fuel : ℕ) (before todo : Text)
      → All Plain (a ∷ b ∷ u)
      → length todo < fuel
      → Open before
      → search_on it with specifier fuel (before ++ todo) (length before) ≡ before ++ pass todo
  unfolding search_on
  search_on-pass zero before todo plain enough open_before = absurd (omega arith)
  search_on-pass (suc fuel) before todo plain enough open_before =
      elim (find_in-cases it todo (λ e. cc)) [
        | inl (absent, clear) ↦
            ap (round it with specifier (search_on it with specifier fuel) (before ++ todo))
              (find-append before todo it ∙ ap (Option.map (λ (n : ℕ). length before + n)) absent)
            ∙ ap (λ l. before ++ l) (sym (expand-Clear specifier a b u with todo clear))
        | inr (pre, post, split, found, clear) ↦
            let place : length before + length pre ≡ length (before ++ pre) =
              omega (arith, length-append before pre) in
            let text : before ++ todo ≡ (before ++ pre) ++ (it ++ post) =
              ap (λ l. before ++ l) split ∙ sym (append_assoc before pre (it ++ post)) in
            ap (round it with specifier (search_on it with specifier fuel) (before ++ todo)) (
              find-append before todo it
              ∙ (ap (Option.map (λ (n : ℕ). length before + n)) found ∙ ap some place))
            ∙ (ap
                  (λ (t : Text).
                    round it with specifier (search_on it with specifier fuel) t
                      (some (length (before ++ pre))))
                  text
                ∙ (on_found pre post
                      (λ before' todo' lt open_before'.
                        search_on-pass fuel before' todo' plain lt open_before')
                      split clear (last_cases pre)
                    ∙ ap (λ l. before ++ pass l) (sym split)))
      ]
    where
      on_found :
          (pre post : Text)
          → ((before' todo' : Text)
              → length todo' < fuel
              → Open before'
              → search_on it with specifier fuel (before' ++ todo') (length before')
                ≡ before' ++ pass todo')
          → todo ≡ pre ++ (it ++ post)
          → Clear it pre (it ++ post)
          → (pre ≡ []) ⊎ ((init : Text) × (c : ℕ) × (pre ≡ init ++ c ∷ []))
          → Done (search_on it with specifier fuel) before pre post
      on_found pre post ih split clear (inl e) =
          Done-replaced (search_on it with specifier fuel) before pre post clear
            (rw (e, append-nil before) open_before) (inl e)
      on_found pre post ih split clear (inr (init, c, e)) = elim (Bool-cases (c == specifier)) [
        | inl same ↦
            let e' : pre ≡ init ++ specifier ∷ [] =
              e ∙ ap (λ (d : ℕ). init ++ d ∷ []) ((==_iff c specifier).0 same) in
            let sab = specifier ∷ a ∷ b ∷ [] in
            let shorter : length (u ++ post) < fuel =
              omega
                (arith, ap length split, length-append pre (it ++ post), length-append u post) in
            rw e' (
              Done-escaped (search_on it with specifier fuel) before init post plain.1.1
                (subst (λ (s : Text). Clear it s (it ++ post)) e' clear)
                (ih ((before ++ init) ++ sab) (u ++ post) shorter (
                  inr (
                    (before ++ init) ++ (specifier ∷ a ∷ []),
                    b,
                    sym (append_assoc (before ++ init) (specifier ∷ a ∷ []) (b ∷ [])),
                    plain.1.0,
                  ))))
        | inr other ↦
            Done-replaced (search_on it with specifier fuel) before pre post clear
              (inr (
                before ++ init,
                c,
                ap (λ l. before ++ l) e ∙ sym (append_assoc before init (c ∷ [])),
                other,
              ))
              (inr (init, c, e, other))
      ]

-- The loop that replaces the first occurrence, but for those that an escape character stands before,
-- which lose this, does it in one pass over the text, for each word of three bytes and more that
-- starts with the escape character and has no other one; and it ends within its fuel.
pub replace_first_with_escape-expand :
    (specifier a b : ℕ) (u with str : Text)
    → All (λ c. (c == specifier) ≡ false) (a ∷ b ∷ u)
    → replace_first_with_escape (specifier ∷ a ∷ b ∷ u) with specifier str
      ≡ expand (specifier ∷ a ∷ b ∷ u) with specifier 0 str
unfolding replace_first_with_escape
replace_first_with_escape-expand specifier a b u with str plain =
    search_on-pass specifier a b u with (suc (length str)) [] str plain (omega arith) (inl refl)
