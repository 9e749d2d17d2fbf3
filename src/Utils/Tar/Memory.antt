-- ===== src/Utils/Tar/Memory.antt =====
-- The memory of a header of `Tar` (src/utils/tar.cc): what stores leave at its offsets.
use residue.Utils.Tar.{Header, store, tabulate, sum_bytes}
use residue.Prelude.{
  get_or, ℕ, zero, suc, ◌+◌, ◌-◌, ◌*◌, ◌≤◌, ◌<◌, ◌≡◌, refl, ap, ◌∙◌, [], ◌∷◌, ◌++◌, arith, length,
  take, drop, All, Text,
}

pub store_before : (at : ℕ) (t : Text) (h : Header) (i : ℕ) → i < at → store at t h i ≡ h i
unfolding store
store_before at t h i lt = ground arith

pub store_behind :
    (at : ℕ) (t : Text) (h : Header) (i : ℕ) → at + length t < i → store at t h i ≡ h i
unfolding store
store_behind at t h i lt = ground arith

pub store_at :
    (at : ℕ) (t : Text) (h : Header) (i : ℕ) → i ≤ length t → store at t h (at + i) ≡ get_or 0 t i
unfolding store
store_at at t h i le = let e : (at + i) - at ≡ i = omega arith in ground (arith, e)

pub get_or-length : (t : Text) → get_or 0 t (length t) ≡ 0
get_or-length [] = refl
get_or-length (x ∷ t) = get_or-length t

pub tabulate-ext :
    (n at : ℕ) (g h : Header)
    → ((i : ℕ) → at ≤ i → i < at + n → g i ≡ h i)
    → tabulate n at g ≡ tabulate n at h
unfolding tabulate
tabulate-ext zero at g h same = refl
tabulate-ext (suc n) at g h same = cc (
  same at (omega arith) (omega arith),
  tabulate-ext n (suc at) g h (λ i a b. same i (omega arith) (omega arith)),
)

-- A field that holds a text.
pub tabulate-text :
    (t : Text) (at : ℕ) (g : Header)
    → ((i : ℕ) → i < length t → g (at + i) ≡ get_or 0 t i)
    → tabulate (length t) at g ≡ t
unfolding tabulate
tabulate-text [] at g holds = refl
tabulate-text (x ∷ t) at g holds =
    let first : g at ≡ x = rw (shift_zero) (holds 0 (omega arith)) in
    cc (first, tabulate-text t (suc at) g (λ i lt. rw (shift at i) (holds (suc i) (omega arith))))
  where
    shift_zero : at ≡ at + 0
    shift_zero = omega arith

    shift : (a i : ℕ) → suc a + i ≡ a + suc i
    shift a i = omega arith

pub drop-tabulate :
    (k m at : ℕ) (h : Header) (rest : Text)
    → drop k (tabulate (k + m) at h ++ rest) ≡ tabulate m (at + k) h ++ rest
unfolding tabulate
drop-tabulate zero m at h rest =
    let e : 0 + m ≡ m = omega arith in let e2 : at + 0 ≡ at = omega arith in rw (e, e2) refl
drop-tabulate (suc k) m at h rest =
    let e : suc k + m ≡ suc (k + m) = omega arith in
    let e2 : at + suc k ≡ suc at + k = omega arith in rw (e, e2) (drop-tabulate k m (suc at) h rest)

pub take-tabulate :
    (n m at : ℕ) (h : Header) (rest : Text)
    → take n (tabulate (n + m) at h ++ rest) ≡ tabulate n at h
unfolding tabulate
take-tabulate zero m at h rest = refl
take-tabulate (suc n) m at h rest =
    let e : suc n + m ≡ suc (n + m) = omega arith in
    rw e (ap (λ l. h at ∷ l) (take-tabulate n m (suc at) h rest))

-- The bytes of a field, taken out of the header that was written.
pub slice-tabulate :
    (n k m at : ℕ) (h : Header) (rest : Text)
    → take n (drop k (tabulate (k + (n + m)) at h ++ rest)) ≡ tabulate n (at + k) h
slice-tabulate n k m at h rest =
    ap (take n) (drop-tabulate k (n + m) at h rest) ∙ take-tabulate n m (at + k) h rest

abbrev pub IsBytes : Header → Type 0
IsBytes h = (i : ℕ) → h i < 256

abbrev pub IsByte : ℕ → Type 0
IsByte c = c < 256

get_or-IsByte : (t : Text) (i : ℕ) → All IsByte t → get_or 0 t i < 256
get_or-IsByte [] i h = omega arith
get_or-IsByte (x ∷ t) zero h = h.0
get_or-IsByte (x ∷ t) (suc i) h = get_or-IsByte t i h.1

pub store-IsBytes :
    (at : ℕ) (t : Text) (h : Header) → All IsByte t → IsBytes h → IsBytes (store at t h)
unfolding store
store-IsBytes at t h bytes rest i = ground (arith, get_or-IsByte t (i - at) bytes, rest i)

pub sum_bytes-tabulate : (n at : ℕ) (h : Header) → IsBytes h → sum_bytes (tabulate n at h) ≤ n * 255
unfolding tabulate
sum_bytes-tabulate zero at h bytes = omega arith
sum_bytes-tabulate (suc n) at h bytes =
    omega (arith, bytes at, sum_bytes-tabulate n (suc at) h bytes)
