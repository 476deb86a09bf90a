-- ===== src/Base/Search.antt =====
-- The two loops over a fixed array: the first index that passes a test, and how many entries do.
use Prim.Native.Nat.{ℕ, zero, suc, ◌+◌, ◌≤◌, ◌<◌}
use mathlib.Core.Path.{◌≡◌, refl}
use mathlib.Core.Logic.{inl, inr}
use mathlib.Core.Bool.{Bool, true, false, not}
use mathlib.Core.List.{List, [], ◌∷◌}
use mathlib.Core.Option.{Option, none, some}
use native.Mathlib.Omega.{arith}
use netdevsim_dkms.Base.Lists.{length, get_or, set}
use netdevsim_dkms.Base.Tests.{if◌then◌else◌, bit, Bool-cases}

module _ {ℓ} {A : Type ℓ} (p : A → Bool) where
  abbrev pub find_index : List A → Option ℕ
  find_index [] = none
  find_index (x ∷ xs) =
      if p x then some 0 else elim (find_index xs) [ none ↦ none | some i ↦ some (suc i) ]

  abbrev pub count : List A → ℕ
  count [] = 0
  count (x ∷ xs) = bit (p x) + count xs

  -- The entry that is found passes the test.
  pub find_index-passes :
      (d : A) (xs : List A) (i : ℕ)
      → find_index xs ≡ some i
      → (i < length xs) × (p (get_or xs i d) ≡ true)
  find_index-passes d [] i h = ground arith
  find_index-passes d (x ∷ xs) zero h = ground arith
  find_index-passes d (x ∷ xs) (suc i) h = ground (arith, find_index-passes d xs i)

  -- An entry that passes is found, there or before.
  pub find_index-of :
      (d : A) (xs : List A) (j : ℕ)
      → j < length xs
      → p (get_or xs j d) ≡ true
      → (i : ℕ) × (find_index xs ≡ some i) × (i ≤ j)
  find_index-of d [] j lt h = absurd (omega arith)
  find_index-of d (x ∷ xs) zero lt h = (0, ground arith, omega arith)
  find_index-of d (x ∷ xs) (suc j) lt h = found (p x) (find_index-of d xs j (omega arith) h)
    where
      found :
          (b : Bool)
          → ((i : ℕ) × (find_index xs ≡ some i) × (i ≤ j))
          → (i : ℕ) × ((if b
                then some 0
                else elim (find_index xs) [ none ↦ none | some i ↦ some (suc i) ])
              ≡ some i)
            × (i ≤ suc j)
      found true r = (0, refl, omega arith)
      found false (i, e, le) = (suc i, ground arith, omega arith)

  pub count-le-length : (xs : List A) → count xs ≤ length xs
  count-le-length [] = omega arith
  count-le-length (x ∷ xs) = ground (arith, count-le-length xs)

  pub count-set :
      (d : A) (xs : List A) (i : ℕ) (v : A)
      → i < length xs
      → count (set xs i v) + bit (p (get_or xs i d)) ≡ count xs + bit (p v)
  count-set d [] i v h = absurd (omega arith)
  count-set d (x ∷ xs) zero v h = omega arith
  count-set d (x ∷ xs) (suc i) v h = omega (arith, count-set d xs i v)

  pub count-pos :
      (d : A) (xs : List A) (i : ℕ) → i < length xs → p (get_or xs i d) ≡ true → 0 < count xs
  count-pos d [] i h e = absurd (omega arith)
  count-pos d (x ∷ xs) zero h e = ground arith
  count-pos d (x ∷ xs) (suc i) h e = omega (arith, count-pos d xs i (omega arith) e)

-- A search for a clear flag fails on a full table only.
pub find_index-not_full {ℓ} :
    {A : Type ℓ} (p : A → Bool) (xs : List A)
    → count p xs < length xs
    → (i : ℕ) × (find_index (λ x. not (p x)) xs ≡ some i)
find_index-not_full p [] h = absurd (omega arith)
find_index-not_full p (x ∷ xs) h = split (p x) h (find_index-not_full p xs)
  where
    split :
        (b : Bool)
        → bit b + count p xs < suc (length xs)
        → (count p xs < length xs → (i : ℕ) × (find_index (λ y. not (p y)) xs ≡ some i))
        → (i : ℕ) × ((if not b
              then some 0
              else elim (find_index (λ y. not (p y)) xs) [ none ↦ none | some k ↦ some (suc k) ])
            ≡ some i)
    split true lt ih = let (i, e) = ih (omega arith) in (suc i, rw e)
    split false lt ih = (0, refl)

module _ {ℓ} {A : Type ℓ} (p : A → Bool) where
  -- Where a search fails nothing is counted.
  pub count-none : (xs : List A) → find_index p xs ≡ none → count p xs ≡ 0
  count-none [] h = refl
  count-none (x ∷ xs) h = ground (arith, count-none xs)

  -- The entry that was found, replaced by one that passes too, is found again.
  pub find_index-set_found :
      (xs : List A) (i : ℕ) (v : A)
      → find_index p xs ≡ some i
      → p v ≡ true
      → find_index p (set xs i v) ≡ some i
  find_index-set_found [] i v h hv = h
  find_index-set_found (x ∷ xs) zero v h hv = ground arith
  find_index-set_found (x ∷ xs) (suc i) v h hv = ground (arith, find_index-set_found xs i v)

module _ {ℓ} {A : Type ℓ} (p : A → Bool) where
  -- The only entry that passes is found.
  pub find_index_unique :
      (d : A) (xs : List A) (i : ℕ)
      → i < length xs
      → p (get_or xs i d) ≡ true
      → count p xs ≤ 1
      → find_index p xs ≡ some i
  find_index_unique d [] i lt h one = absurd (omega arith)
  find_index_unique d (x ∷ xs) zero lt h one = ground arith
  find_index_unique d (x ∷ xs) (suc i) lt h one = elim (Bool-cases (p x)) [
    | inl e ↦ absurd (ground (arith, e, count-pos p d xs i (omega arith) h))
    | inr e ↦ ground (arith, e, find_index_unique d xs i (omega arith) h)
  ]
