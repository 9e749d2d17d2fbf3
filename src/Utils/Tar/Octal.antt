-- ===== src/Utils/Tar/Octal.antt =====
-- The octal numerals of `Tar` (src/utils/tar.cc) can be read back.
use residue.Utils.Tar.{octal_of, octal}
use residue.Prelude.{
  ℕ, zero, suc, ◌+◌, ◌-◌, ◌*◌, ◌/◌, ◌%◌, ◌≤◌, ◌<◌, ◌≡◌, refl, ◌∙◌, false, [], ◌∷◌, ◌++◌, arith, ltb,
  ltb→lt, length, replicate, All, length-append, length-replicate, Text, All-append, if_cases,
}

-- The number that octal digits spell behind `acc`.
abbrev pub read_octal : ℕ → Text → ℕ
read_octal acc [] = acc
read_octal acc (c ∷ cs) = read_octal (acc * 8 + (c - b'0')) cs

-- The powers of eight.
abbrev pub pow8 : ℕ → ℕ
pow8 zero = 1
pow8 (suc w) = 8 * pow8 w

read_octal-octal_of :
    (fuel n : ℕ) (acc : Text) → n < fuel → read_octal 0 (octal_of fuel n acc) ≡ read_octal n acc
unfolding octal_of
read_octal-octal_of zero n acc h = absurd (omega arith)
read_octal-octal_of (suc fuel) n acc h =
    let e : n / 8 * 8 + ((n % 8 + b'0') - b'0') ≡ n = omega arith in
    let e0 : (n + b'0') - b'0' ≡ n = omega arith in
    ground (arith, e, e0, read_octal-octal_of fuel (n / 8) ((n % 8 + b'0') ∷ acc))

ge_eight : (n : ℕ) → ltb n 8 ≡ false → 8 ≤ n
ge_eight n h = ground arith

length-octal_of :
    (fuel n w : ℕ) (acc : Text)
    → n < fuel
    → 0 < w
    → n < pow8 w
    → length (octal_of fuel n acc) ≤ w + length acc
unfolding octal_of
length-octal_of zero n w acc h pos bound = absurd (omega arith)
length-octal_of (suc fuel) n zero acc h pos bound = absurd (omega arith)
length-octal_of (suc fuel) n (suc zero) acc h pos bound =
    if_cases (λ l. length l ≤ 1 + length acc) (ltb n 8) ((n + b'0') ∷ acc)
      (octal_of fuel (n / 8) ((n % 8 + b'0') ∷ acc)) (λ _. omega arith)
      (λ large. absurd (omega (arith, ge_eight n large)))
length-octal_of (suc fuel) n (suc (suc w)) acc h pos bound =
    if_cases (λ l. length l ≤ suc (suc w) + length acc) (ltb n 8) ((n + b'0') ∷ acc)
      (octal_of fuel (n / 8) ((n % 8 + b'0') ∷ acc)) (λ _. omega arith)
      (λ large. omega (
        arith,
        ge_eight n large,
        length-octal_of fuel (n / 8) (suc w) ((n % 8 + b'0') ∷ acc)
            (omega (arith, ge_eight n large)) (omega arith) (omega arith),
      ))

octal_of-IsDigits :
    (fuel n : ℕ) (acc : Text) → All (λ c. c < 256) acc → All (λ c. c < 256) (octal_of fuel n acc)
unfolding octal_of
octal_of-IsDigits zero n acc h = h
octal_of-IsDigits (suc fuel) n acc h =
    if_cases (All (λ c. c < 256)) (ltb n 8) _ _ (λ small. (omega (arith, ltb→lt n 8 small), h))
      (λ _. octal_of-IsDigits fuel (n / 8) ((n % 8 + b'0') ∷ acc) (omega arith, h))

read_octal-zeros : (k : ℕ) (t : Text) → read_octal 0 (replicate k b'0' ++ t) ≡ read_octal 0 t
read_octal-zeros zero t = refl
read_octal-zeros (suc k) t = read_octal-zeros k t

pub read_octal-octal : (w n : ℕ) → read_octal 0 (octal w n) ≡ n
unfolding octal
read_octal-octal w n =
    read_octal-zeros (w - length (octal_of (suc n) n [])) (octal_of (suc n) n [])
    ∙ read_octal-octal_of (suc n) n [] (omega arith)

pub length-octal : (w n : ℕ) → 0 < w → n < pow8 w → length (octal w n) ≡ w
unfolding octal
length-octal w n pos bound = omega (
  arith,
  length-append (replicate (w - length (octal_of (suc n) n [])) b'0') (octal_of (suc n) n []),
  length-replicate {A = ℕ} (w - length (octal_of (suc n) n [])) b'0',
  length-octal_of (suc n) n w [] (omega arith) pos bound,
)

replicate-IsByte : (k : ℕ) → All (λ c. c < 256) (replicate k b'0')
replicate-IsByte zero = tt
replicate-IsByte (suc k) = (omega arith, replicate-IsByte k)

pub octal-IsByte : (w n : ℕ) → All (λ c. c < 256) (octal w n)
unfolding octal
octal-IsByte w n =
    All-append (λ c. c < 256) (replicate (w - length (octal_of (suc n) n [])) b'0')
      (octal_of (suc n) n []) (replicate-IsByte _) (octal_of-IsDigits (suc n) n [] tt)
