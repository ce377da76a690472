-- ===== src/Base/Table.antt =====
-- Tables as lists of rows with a numeric key, and sums over rows.
use go_ledger.Base.Tests.{◌==◌, if◌then◌else◌, ==_iff, ==_refl, Bool-cases}
use go_ledger.Base.Lists.{All, All-map}
use mathlib.Core.Logic.{inl, inr}
use mathlib.Core.Bool.{false}
use Prim.Native.Nat.{ℕ}
use mathlib.Core.Path.{◌≡◌, refl, subst}
use mathlib.Core.List.{List, [], ◌∷◌, map}
use mathlib.Core.Option.{Option, none, some}
use native.Mathlib.Omega.{arith}

module _ {ℓ} {A : Type ℓ} (key : A → ℕ) where
  -- SELECT … WHERE id = k, on a table with `key` as its primary key
  abbrev pub find : ℕ → List A → Option A
  find k [] = none
  find k (x ∷ xs) = if key x == k then some x else find k xs

  -- no two rows have one key
  abbrev pub Distinct : List A → Type ℓ
  Distinct [] = Unit
  Distinct (x ∷ xs) = (find (key x) xs ≡ none) × Distinct xs

  pub find_key_lem : (k : ℕ) (xs : List A) (a : A) → find k xs ≡ some a → key a ≡ k
  find_key_lem k [] a h = cc
  find_key_lem k (x ∷ xs) a h = ground (arith, find_key_lem k xs a)

  -- a key that no row has
  pub absent-All : (k : ℕ) (xs : List A) → find k xs ≡ none → All (λ x. (key x == k) ≡ false) xs
  absent-All k [] absent = tt
  absent-All k (x ∷ xs) absent = elim (Bool-cases (key x == k)) [
    | inl same ↦ absurd (ground arith)
    | inr other ↦ (other, absent-All k xs (ground arith))
  ]

  find-cons_some :
      (x y : A) (xs : List A)
      → find (key x) xs ≡ none
      → find (key y) xs ≡ some y
      → find (key y) (x ∷ xs) ≡ some y
  find-cons_some x y xs fresh found = elim (Bool-cases (key x == key y)) [
    | inl same ↦
        let gone : find (key y) xs ≡ none =
          subst (λ k. find k xs ≡ none) ((==_iff (key x) (key y)).0 same) fresh in
        cc (gone, found)
    | inr other ↦ rw other found
  ]

  -- in a table with a primary key, the row with the key of a row is that row
  pub Distinct-find : (xs : List A) → Distinct xs → All (λ x. find (key x) xs ≡ some x) xs
  Distinct-find [] distinct = tt
  Distinct-find (x ∷ xs) (fresh, distinct) = (
    rw (==_refl (key x)) refl,
    All-map xs (λ y found. find-cons_some x y xs fresh found) (Distinct-find xs distinct),
  )

module _ {ℓ} {A : Type ℓ} (key : A → ℕ) (f : A → A) (keeps : (a : A) → key (f a) ≡ key a) where
  -- an update of rows that keeps their keys
  pub find-map-some :
      (k : ℕ) (xs : List A) (a : A) → find key k xs ≡ some a → find key k (map f xs) ≡ some (f a)
  find-map-some k [] a h = cc
  find-map-some k (x ∷ xs) a h = ground (arith, keeps x, find-map-some k xs a)

  pub find-map-none : (k : ℕ) (xs : List A) → find key k xs ≡ none → find key k (map f xs) ≡ none
  find-map-none k [] h = refl
  find-map-none k (x ∷ xs) h = ground (arith, keeps x, find-map-none k xs)

  pub Distinct-map : (xs : List A) → Distinct key xs → Distinct key (map f xs)
  Distinct-map [] d = tt
  Distinct-map (x ∷ xs) (fresh, d) =
      (rw (keeps x) (find-map-none (key x) xs fresh), Distinct-map xs d)
