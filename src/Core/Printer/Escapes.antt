-- ===== src/Core/Printer/Escapes.antt =====
-- A reader for the JSON strings that `JsonDoc::dumpStr` (src/core/json-doc.cc) prints. Like the JSON
-- library of the program (src/deps/gason), it takes no control byte that is not escaped.
use residue.Core.Printer.{escape, dump_body, dump_str}
use residue.Prelude.{
  ℕ, ◌<◌, ◌≡◌, refl, sym, ap, ◌∙◌, subst, ◌≢◌, Bool, true, false, not, ◌&&◌, ◌||◌, Option, none,
  some, [], ◌∷◌, ◌++◌, append_assoc, arith, leb, ◌==◌, if◌then◌else◌, ==_iff, length, All,
  length-append, Text, if_cases,
}

-- The byte that an escape stands for.
abbrev pub escaped : ℕ → Option ℕ
escaped c =
    if c == 98
    then some 8
    else if c == 102
    then some 12
    else if c == 110
    then some 10
    else if c == 114
    then some 13
    else if c == 116
    then some 9
    else if c == 92
    then some 92
    else if c == 34
    then some 34
    else none

-- A byte that may stand in a JSON string as it is.
abbrev pub is_plain : ℕ → Bool
is_plain c = leb 32 c && not (c == 127)

-- A byte for which there is a short escape, or that needs none.
abbrev pub is_text : ℕ → Bool
is_text c = c == 8 || c == 9 || c == 10 || c == 12 || c == 13 || is_plain c

abbrev pub all_text : Text → Bool
all_text [] = true
all_text (c ∷ cs) = is_text c && all_text cs

abbrev pub only_if : Bool → ℕ → Option ℕ
only_if b c = if b then some c else none

abbrev pub consed : Option ℕ → Option (Text × Text) → Option (Text × Text)
consed none o = none
consed (some c) none = none
consed (some c) (some (s, rest)) = some (c ∷ s, rest)

-- A reader of JSON strings behind their opening quote: the string, and what follows its closing quote.
pub read_str : Text → Option (Text × Text)
read_str [] = none
read_str (c ∷ []) = if c == 34 then some ([], []) else none
read_str (c ∷ d ∷ cs) =
    let plain = read_str (d ∷ cs) in
    let behind = read_str cs in
    if c == 34
    then some ([], d ∷ cs)
    else if c == 92
    then consed (escaped d) behind
    else consed (only_if (is_plain c) c) plain

pub read_json : Text → Option (Text × Text)
unfolding read_str
read_json [] = none
read_json (c ∷ cs) = if c == 34 then read_str cs else none

read_plain :
    (c : ℕ) (x : Text)
    → c ≢ 34
    → c ≢ 92
    → 0 < length x
    → read_str (c ∷ x) ≡ consed (only_if (is_plain c) c) (read_str x)
unfolding read_str
read_plain c [] h k l = absurd (omega arith)
read_plain c (d ∷ x) h k l = ground arith

-- The byte is the one that the escape is made for.
hit :
    (c k : ℕ) (t : Text) (o : Option (Text × Text))
    → read_str t ≡ consed (only_if (is_text k) k) o
    → (c == k) ≡ true
    → read_str t ≡ consed (only_if (is_text c) c) o
hit c k t o h y =
    subst (λ n. read_str t ≡ consed (only_if (is_text n) n) o) (sym ((==_iff c k).0 y)) h

plain_text :
    (c : ℕ)
    → (c == 8) ≡ false
    → (c == 12) ≡ false
    → (c == 10) ≡ false
    → (c == 13) ≡ false
    → (c == 9) ≡ false
    → is_plain c ≡ is_text c
plain_text c b f n r t = rw (b, f, n, r, t) refl

read-escape :
    (c : ℕ) (x : Text)
    → 0 < length x
    → read_str (escape c ++ x) ≡ consed (only_if (is_text c) c) (read_str x)
unfolding escape read_str
read-escape c x l =
    let P : Text → Type 0 = λ t. read_str (t ++ x) ≡ consed (only_if (is_text c) c) (read_str x) in
    let o = read_str x in
    if_cases P (c == 8) _ _ (hit c 8 (b'\\' ∷ b'b' ∷ x) o refl) λ b.
      if_cases P (c == 12) _ _ (hit c 12 (b'\\' ∷ b'f' ∷ x) o refl) λ f.
        if_cases P (c == 10) _ _ (hit c 10 (b'\\' ∷ b'n' ∷ x) o refl) λ n.
          if_cases P (c == 13) _ _ (hit c 13 (b'\\' ∷ b'r' ∷ x) o refl) λ r.
            if_cases P (c == 9) _ _ (hit c 9 (b'\\' ∷ b't' ∷ x) o refl) λ t.
              if_cases P (c == 92) _ _ (hit c 92 (b'\\' ∷ b'\\' ∷ x) o refl) λ no_backslash.
                if_cases P (c == 34) _ _ (hit c 34 (b'\\' ∷ b'"' ∷ x) o refl) λ no_quote.
                  read_plain c x (ground (arith, no_quote)) (ground (arith, no_backslash)) l
                  ∙ ap (λ y. consed (only_if y c) o) (plain_text c b f n r t)

abbrev read_if : Bool → Text → Text → Option (Text × Text)
read_if b s rest = if b then some (s, rest) else none

consed-read_if :
    (b : Bool) (c : ℕ) (d : Bool) (s rest : Text)
    → consed (only_if b c) (read_if d s rest) ≡ read_if (b && d) (c ∷ s) rest
consed-read_if true c true s rest = refl
consed-read_if true c false s rest = refl
consed-read_if false c d s rest = refl

read-dump_body :
    (s rest : Text)
    → All (λ c. c ≢ 0) s
    → read_str (dump_body s ++ b'"' ∷ rest) ≡ read_if (all_text s) s rest
unfolding dump_body
read-dump_body [] [] h = unfold read_str in refl
read-dump_body [] (c ∷ rest) h = unfold read_str in refl
read-dump_body (c ∷ s) rest h =
    rw (==_no c h.0, append_assoc (escape c) (dump_body s) (b'"' ∷ rest))
      (read-escape c (dump_body s ++ b'"' ∷ rest)
          (omega (arith, length-append (dump_body s) (b'"' ∷ rest)))
        ∙ ap (consed (only_if (is_text c) c)) (read-dump_body s rest h.1)
        ∙ consed-read_if (is_text c) c (all_text s) s rest)
  where
    ==_no : (n : ℕ) → n ≢ 0 → (n == 0) ≡ false
    ==_no n k = ground arith

-- A string with no null byte is printed as JSON text that a reader of such text takes back to the
-- same string, whatever follows, exactly if each of its control bytes is one of \b, \t, \n, \f and \r;
-- with any other one, or with a DEL, the reader refuses the text.
pub read_json-dump_str :
    (s rest : Text)
    → All (λ c. c ≢ 0) s
    → read_json (dump_str s ++ rest) ≡ (if all_text s then some (s, rest) else none)
unfolding dump_str read_json
read_json-dump_str s rest h =
    rw (append_assoc (dump_body s) (b'"' ∷ []) rest) (read-dump_body s rest h)
