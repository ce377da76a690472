-- ===== src/Storage/Migrate/Highest.antt =====
-- Version is the highest applied version.
use go_ledger.Base.{
  ℤ, pos, ◌≤ℤ◌, ltb_ℤ, eqb_ℤ, eqb_ℤ_refl, ◌≡◌, refl, sym, ◌∙◌, subst, true, Option, none, some,
  is_some, String, List, [], ◌∷◌, All, Bool-cases, ◌⊎◌, inl, inr, if◌then◌else◌, arith,
}
use go_ledger.Domain.Errors.{Result, ok, err, ok-injective}
use go_ledger.Storage.Migrate.{
  Applied, State, Driver, read_version, called, applied_checksum, highest, max_version,
  version_read, version,
}

abbrev pub IsApplied : ℤ → List Applied → Type 0
IsApplied v rows = is_some (applied_checksum v rows) ≡ true

abbrev IsHighest : ℤ → ℤ → List Applied → Type 0
IsHighest v from rows =
    (from ≤ℤ v) × All (λ (r : Applied). r.version ≤ℤ v) rows × ((v ≡ from) ⊎ IsApplied v rows)

less_eq_trans : (a b c : ℤ) → a ≤ℤ b → b ≤ℤ c → a ≤ℤ c
less_eq_trans a b c below above = omega arith

here-IsApplied : (r : Applied) (rows : List Applied) → IsApplied r.version (r ∷ rows)
unfolding applied_checksum
here-IsApplied r rows = rw (eqb_ℤ_refl r.version) refl

there-IsApplied :
    (v : ℤ) (r : Applied) (rows : List Applied) → IsApplied v rows → IsApplied v (r ∷ rows)
unfolding applied_checksum
there-IsApplied v r rows there = elim (Bool-cases (eqb_ℤ r.version v)) [
  | inl same ↦ rw same refl
  | inr other ↦ rw other there
]

cons-IsHighest :
    (v next from : ℤ) (r : Applied) (rows : List Applied)
    → from ≤ℤ next
    → r.version ≤ℤ next
    → (next ≡ from) ⊎ (next ≡ r.version)
    → IsHighest v next rows
    → IsHighest v from (r ∷ rows)
cons-IsHighest v next from r rows above_from above_r chosen rest =
    let from_or_applied : (v ≡ from) ⊎ IsApplied v (r ∷ rows) = elim rest.2 [
      | inr there ↦ inr (there-IsApplied v r rows there)
      | inl same ↦ elim chosen [
        | inl old ↦ inl (same ∙ old)
        | inr new ↦
            inr (subst (λ w. IsApplied w (r ∷ rows)) (sym (same ∙ new)) (here-IsApplied r rows))
      ]
    ] in
    (
      less_eq_trans from next v above_from rest.0,
      (less_eq_trans r.version next v above_r rest.0, rest.1),
      from_or_applied,
    )

highest-IsHighest : (from : ℤ) (rows : List Applied) → IsHighest (highest from rows) from rows
highest-IsHighest from [] = (omega arith, tt, inl refl)
highest-IsHighest from (r ∷ rows) =
    cons-IsHighest _ (if ltb_ℤ from r.version then r.version else from) from r rows
      (from_below from r.version) (new_below from r.version) (chosen from r.version)
      (highest-IsHighest (if ltb_ℤ from r.version then r.version else from) rows)
  where
    from_below : (a b : ℤ) → a ≤ℤ (if ltb_ℤ a b then b else a)
    from_below a b = elim (Bool-cases (ltb_ℤ a b)) [
      | inl above ↦ rw above (ground arith)
      | inr below ↦ rw below (omega arith)
    ]

    new_below : (a b : ℤ) → b ≤ℤ (if ltb_ℤ a b then b else a)
    new_below a b = elim (Bool-cases (ltb_ℤ a b)) [
      | inl above ↦ rw above (omega arith)
      | inr below ↦ rw below (ground arith)
    ]

    chosen : (a b : ℤ) → ((if ltb_ℤ a b then b else a) ≡ a) ⊎ ((if ltb_ℤ a b then b else a) ≡ b)
    chosen a b = elim (Bool-cases (ltb_ℤ a b)) [
      | inl above ↦ rw above (inr refl)
      | inr below ↦ rw below (inl refl)
    ]

-- What Version reads of the rows: no applied version is higher, and it is one of them, or there is
-- none and it is 0.
abbrev pub IsVersion : ℤ → List Applied → Type 0
IsVersion v rows =
    All (λ (r : Applied). r.version ≤ℤ v) rows × (((rows ≡ []) × (v ≡ pos 0)) ⊎ IsApplied v rows)

max_version-IsVersion : (rows : List Applied) → IsVersion (max_version rows) rows
unfolding max_version
max_version-IsVersion [] = (tt, inl (refl, refl))
max_version-IsVersion (r ∷ rows) =
    let (above, all, from_or_applied) : IsHighest (highest r.version rows) r.version rows =
      highest-IsHighest r.version rows in
    (
      (above, all),
      elim from_or_applied [
        | inl same ↦ inr (subst (λ w. IsApplied w (r ∷ rows)) (sym same) (here-IsApplied r rows))
        | inr there ↦ inr (there-IsApplied _ r rows there)
      ],
    )

called-ok : {A : Type 0} (fault : Option String) (a b : A) → called fault (ok a) ≡ ok b → a ≡ b
called-ok none a b is = ok-injective is
called-ok (some message) a b is = cc (is)

version_read-ok :
    {S : Type 0} (driver : Driver S) (r : Result (Unit {0})) (s : State S) (v : ℤ)
    → version_read driver s r ≡ ok v
    → max_version s.rows ≡ v
version_read-ok driver (err e) s v is = cc (is)
version_read-ok driver (ok _) s v is = called-ok (driver.fault read_version) _ v is

-- If Version succeeds, then no applied migration has a higher version, and its result is an applied
-- version, or 0 if none has been applied.
pub version-IsVersion :
    {S : Type 0} (driver : Driver S) (s : State S) (v : ℤ)
    → version driver s ≡ ok v
    → IsVersion v s.rows
unfolding version
version-IsVersion driver s v is =
    subst (λ w. IsVersion w s.rows) (version_read-ok driver _ s v is) (max_version-IsVersion s.rows)
