-- ===== src/Base/Map.antt =====
-- `HashMap` with text keys, as an association list. Insertion replaces in place or appends; the
-- order in which a `HashMap` iterates is unspecified, so no theorem rests on the list's order.
use cliprelay.Base.Lists.{length}
use Prim.Native.Nat.{suc, ◌≤◌}
use mathlib.Core.Bool.{Bool, true, false}
use mathlib.Core.Logic.{inl, inr}
use mathlib.Core.Path.{subst₂}
use cliprelay.Base.Tests.{Bool-cases, =?→eq}
use cliprelay.Base.Tests.{◌=?◌, =?_iff, if◌then◌else◌}
use Prim.Native.Nat.{ℕ}
use mathlib.Core.Path.{◌≡◌, refl}
use mathlib.Core.Option.{Option, none, some}
use mathlib.Core.List.{List, [], ◌∷◌}
use native.Mathlib.Omega.{arith}

abbrev pub Map {ℓ} : Type ℓ → Type ℓ
Map V = List (List ℕ × V)

module _ {ℓ} {V : Type ℓ} where
  unfoldable pub get : Map V → List ℕ → Option V
  get [] k = none
  get ((j, v) ∷ m) k = if j =? k then some v else get m k

  unfoldable pub insert : Map V → List ℕ → V → Map V
  insert [] k v = (k, v) ∷ []
  insert ((j, w) ∷ m) k v = let rest = insert m k v in if j =? k then (k, v) ∷ m else (j, w) ∷ rest

  unfoldable pub remove : Map V → List ℕ → Map V
  remove [] k = []
  remove ((j, w) ∷ m) k = let rest = remove m k in if j =? k then rest else (j, w) ∷ rest

  abbrev pub values : Map V → List V
  values [] = []
  values ((k, v) ∷ m) = v ∷ values m

  pub get-insert :
      (m : Map V) (k j : List ℕ) (v : V)
      → get (insert m k v) j ≡ (if k =? j then some v else get m j)
  unfolding get insert
  get-insert [] k j v = refl
  get-insert ((i, w) ∷ m) k j v =
      ground (arith, get-insert m k j v, =?_iff i k, =?_iff i j, =?_iff k j)

  pub get-remove :
      (m : Map V) (k j : List ℕ) → get (remove m k) j ≡ (if k =? j then none else get m j)
  unfolding get remove
  get-remove [] k j = ground arith
  get-remove ((i, w) ∷ m) k j = ground (arith, get-remove m k j, =?_iff i k, =?_iff i j, =?_iff k j)

  -- No key stands twice.
  abbrev pub Distinct : Map V → Type ℓ
  Distinct [] = Unit {ℓ}
  Distinct ((k, v) ∷ m) = (get m k ≡ none) × Distinct m

  abbrev pub contains_key : Map V → List ℕ → Bool
  contains_key m k = elim (get m k) [ none ↦ false | some v ↦ true ]

  pub insert-Distinct : (m : Map V) (k : List ℕ) (v : V) → Distinct m → Distinct (insert m k v)
  unfolding insert get
  insert-Distinct [] k v h = (refl, tt)
  insert-Distinct ((j, w) ∷ m) k v h =
      ground (arith, insert-Distinct m k v, get-insert m k j v, =?_iff j k, =?_iff k j)

  pub remove-Distinct : (m : Map V) (k : List ℕ) → Distinct m → Distinct (remove m k)
  unfolding remove
  remove-Distinct [] k h = tt
  remove-Distinct ((j, w) ∷ m) k h = ground (arith, remove-Distinct m k, get-remove m k j)

  pub length-insert :
      (m : Map V) (k : List ℕ) (v : V)
      → length (insert m k v) ≡ (if contains_key m k then length m else suc (length m))
  unfolding insert get
  length-insert [] k v = refl
  length-insert ((j, w) ∷ m) k v = ground (arith, length-insert m k v)

  pub length-remove-le : (m : Map V) (k : List ℕ) → length (remove m k) ≤ length m
  unfolding remove
  length-remove-le [] k = omega arith
  length-remove-le ((j, w) ∷ m) k = ground (arith, length-remove-le m k)

  -- A property of every entry, key and value.
  abbrev pub Each {κ} : (List ℕ → V → Type κ) → Map V → Type κ
  Each P [] = Unit {κ}
  Each P ((k, v) ∷ m) = P k v × Each P m

  pub get-Each {κ} :
      (P : List ℕ → V → Type κ) (m : Map V) (k : List ℕ) {v : V}
      → Each P m
      → get m k ≡ some v
      → P k v
  unfolding get
  get-Each P [] k h e = cc
  get-Each P ((j, w) ∷ m) k {v} h e = elim (Bool-cases (j =? k)) [
    | inl same ↦ let found : w ≡ v = ground arith in subst₂ P (=?→eq j k same) found h.0
    | inr other ↦ let later : get m k ≡ some v = ground arith in get-Each P m k h.1 later
  ]

  pub insert-Each {κ} :
      (P : List ℕ → V → Type κ) (m : Map V) (k : List ℕ) (v : V)
      → P k v
      → Each P m
      → Each P (insert m k v)
  unfolding insert
  insert-Each P [] k v p h = (p, tt)
  insert-Each P ((j, w) ∷ m) k v p h = elim (Bool-cases (j =? k)) [
    | inl same ↦ rw (same, insert) (p, h.1)
    | inr other ↦ rw (other, insert) (h.0, insert-Each P m k v p h.1)
  ]

  pub remove-Each {κ} :
      (P : List ℕ → V → Type κ) (m : Map V) (k : List ℕ) → Each P m → Each P (remove m k)
  unfolding remove
  remove-Each P [] k h = tt
  remove-Each P ((j, w) ∷ m) k h = elim (Bool-cases (j =? k)) [
    | inl same ↦ rw (same, remove) (remove-Each P m k h.1)
    | inr other ↦ rw (other, remove) (h.0, remove-Each P m k h.1)
  ]
