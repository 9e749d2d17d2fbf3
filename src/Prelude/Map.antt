-- ===== src/Prelude/Map.antt =====
-- `std::unordered_map<std::string, V>` as an association list. The order of the entries stands
-- for the order in which the program would iterate over the map, which is unspecified.
use mathlib.Core.Path.{◌≡◌}
use mathlib.Core.Bool.{Bool, true, false}
use mathlib.Core.Option.{Option, none, some}
use mathlib.Core.List.{List, [], ◌∷◌}
use native.Mathlib.Omega.{arith}
use residue.Prelude.Tests.{if◌then◌else◌}
use residue.Prelude.Bytes.{Text, text_eq, text_eq_iff}

abbrev pub Map {ℓ} : Type ℓ → Type ℓ
Map V = List (Text × V)

abbrev pub is_some {ℓ} : {A : Type ℓ} → Option A → Bool
is_some none = false
is_some (some a) = true

module _ {ℓ} {V : Type ℓ} where
  -- `find`; a missing key gives `end()`, here `none`.
  unfoldable pub find : Map V → Text → Option V
  find [] k = none
  find ((j, v) ∷ m) k = if text_eq j k then some v else find m k

  -- `insert`: an entry that is there already stays.
  unfoldable pub insert : Map V → Text → V → Map V
  insert [] k v = (k, v) ∷ []
  insert ((j, w) ∷ m) k v = if text_eq j k then (j, w) ∷ m else (j, w) ∷ insert m k v

  -- `m[k] = v`.
  unfoldable pub assign : Map V → Text → V → Map V
  assign [] k v = (k, v) ∷ []
  assign ((j, w) ∷ m) k v = if text_eq j k then (j, v) ∷ m else (j, w) ∷ assign m k v

  -- A change of the value behind a pointer or an iterator to the entry of `k`.
  unfoldable pub modify : Map V → Text → (V → V) → Map V
  modify [] k f = []
  modify ((j, w) ∷ m) k f = if text_eq j k then (j, f w) ∷ m else (j, w) ∷ modify m k f

  -- `erase(k)`.
  unfoldable pub erase : Map V → Text → Map V
  erase [] k = []
  erase ((j, w) ∷ m) k = if text_eq j k then m else (j, w) ∷ erase m k

  -- No key stands twice.
  abbrev pub UniqueKeys : Map V → Type 0
  UniqueKeys [] = Unit
  UniqueKeys ((j, w) ∷ m) = (is_some (find m j) ≡ false) × UniqueKeys m

module _ {ℓ} {V : Type ℓ} where
  pub find-insert :
      (m : Map V) (k j : Text) (v : V)
      → find (insert m k v) j
        ≡ (if is_some (find m k) then find m j else if text_eq k j then some v else find m j)
  unfolding find insert
  find-insert [] k j v = ground arith
  find-insert ((i, w) ∷ m) k j v =
      ground (arith, text_eq_iff i k, text_eq_iff i j, text_eq_iff k j, find-insert m k j v)

  pub find-assign :
      (m : Map V) (k j : Text) (v : V)
      → find (assign m k v) j ≡ (if text_eq k j then some v else find m j)
  unfolding find assign
  find-assign [] k j v = ground arith
  find-assign ((i, w) ∷ m) k j v =
      ground (arith, text_eq_iff i k, text_eq_iff i j, text_eq_iff k j, find-assign m k j v)

  abbrev pub map_option : (V → V) → Option V → Option V
  map_option f none = none
  map_option f (some v) = some (f v)

  pub find-modify :
      (m : Map V) (k j : Text) (f : V → V)
      → find (modify m k f) j ≡ (if text_eq k j then map_option f (find m j) else find m j)
  unfolding find modify
  find-modify [] k j f = ground arith
  find-modify ((i, w) ∷ m) k j f =
      ground (arith, text_eq_iff i k, text_eq_iff i j, text_eq_iff k j, find-modify m k j f)

  pub find-erase :
      (m : Map V) (k j : Text)
      → UniqueKeys m
      → find (erase m k) j ≡ (if text_eq k j then none else find m j)
  unfolding find erase
  find-erase [] k j u = ground arith
  find-erase ((i, w) ∷ m) k j u =
      ground (arith, text_eq_iff i k, text_eq_iff i j, text_eq_iff k j, find-erase m k j u.1)

  pub find-erase_other :
      (m : Map V) (k j : Text) → text_eq k j ≡ false → find (erase m k) j ≡ find m j
  unfolding find erase
  find-erase_other [] k j ne = ground arith
  find-erase_other ((i, w) ∷ m) k j ne =
      ground (arith, text_eq_iff i k, text_eq_iff i j, text_eq_iff k j, find-erase_other m k j ne)

  pub UniqueKeys-insert : (m : Map V) (k : Text) (v : V) → UniqueKeys m → UniqueKeys (insert m k v)
  unfolding insert find
  UniqueKeys-insert [] k v u = ground arith
  UniqueKeys-insert ((i, w) ∷ m) k v u =
      ground
        (arith, text_eq_iff i k, text_eq_iff k i, find-insert m k i v, UniqueKeys-insert m k v u.1)

  pub UniqueKeys-modify :
      (m : Map V) (k : Text) (f : V → V) → UniqueKeys m → UniqueKeys (modify m k f)
  unfolding modify
  UniqueKeys-modify [] k f u = ground arith
  UniqueKeys-modify ((i, w) ∷ m) k f u =
      ground
        (arith, text_eq_iff i k, text_eq_iff k i, find-modify m k i f, UniqueKeys-modify m k f u.1)

  pub UniqueKeys-erase : (m : Map V) (k : Text) → UniqueKeys m → UniqueKeys (erase m k)
  unfolding erase
  UniqueKeys-erase [] k u = ground arith
  UniqueKeys-erase ((i, w) ∷ m) k u =
      ground
        (arith, text_eq_iff i k, text_eq_iff k i, find-erase m k i u.1, UniqueKeys-erase m k u.1)
