-- ===== src/Storage/Migrate/Sorted.antt =====
-- What LoadMigrations returns: the migrations in the order of their versions, each once.
use go_ledger.Base.{
  ℤ, ◌<ℤ◌, ltb_ℤ, eqb_ℤ, eqb_ℤ-sound, eqb_ℤ_refl, ◌≡◌, ◌≢◌, refl, sym, ◌∙◌, subst, Bool, true,
  false, Option, none, some, List, [], ◌∷◌, Bytes, bytes_equal, All, All-map, Bool-cases, inl, inr,
  arith,
}
use go_ledger.Domain.Errors.{Result, ok, err}
use go_ledger.Storage.Migrate.Load.{
  File, Files, Migration, is_empty, with_body, new_migration, add_file, before_all, cons_result,
  with_file, load_named, load_file, next_file, load_files, insert_by_version, completed,
  complete_all, load_read, load_migrations, up_direction, down_direction,
}

abbrev pub Ascending : List Migration → Type 0
Ascending [] = Unit
Ascending (m ∷ ms) = All (λ (x : Migration). m.version <ℤ x.version) ms × Ascending ms

-- what a loaded migration has: a body, with its checksum
abbrev pub IsComplete : (Bytes → Bytes) → Migration → Type 0
IsComplete hex_sha256 m = (m.up ≢ []) × (m.checksum ≡ hex_sha256 m.up)

abbrev OnOk : {A : Type 0} → (A → Type 0) → Result A → Type 0
OnOk P (ok a) = P a
OnOk P (err e) = Unit

-- no migration has this version
abbrev Lacks : ℤ → List Migration → Type 0
Lacks v = All (λ (x : Migration). x.version ≢ v)

abbrev Distinct : List Migration → Type 0
Distinct [] = Unit
Distinct (m ∷ ms) = Lacks m.version ms × Distinct ms

with_body-version :
    (direction body : Bytes) (m : Migration)
    → OnOk (λ (m' : Migration). m'.version ≡ m.version) (with_body direction body m)
with_body-version direction body m = elim (Bool-cases (bytes_equal direction up_direction)) [
  | inl up ↦ rw up refl
  | inr other ↦ elim (Bool-cases (bytes_equal direction down_direction)) [
    | inl down ↦ rw (other, down) refl
    | inr neither ↦ rw (other, neither) tt
  ]
]

-- what a file of a version makes of distinct migrations
abbrev Added : ℤ → List Migration → List Migration → Type 0
Added version ms out = Distinct out × ((v : ℤ) → v ≢ version → Lacks v ms → Lacks v out)

before_all-Added :
    (version : ℤ) (m : Migration) (ms : List Migration) (r : Result Migration)
    → m.version ≡ version
    → Distinct (m ∷ ms)
    → OnOk (λ (m' : Migration). m'.version ≡ m.version) r
    → OnOk (Added version (m ∷ ms)) (before_all r ms)
before_all-Added version m ms (err e) is distinct same = tt
before_all-Added version m ms (ok m') is distinct same =
    ((rw same distinct.0, distinct.1), λ v other lacks. (λ e. lacks.0 (sym same ∙ e), lacks.1))

new-Added :
    (version : ℤ) (m : Migration) (r : Result Migration)
    → m.version ≡ version
    → OnOk (λ (m' : Migration). m'.version ≡ m.version) r
    → OnOk (Added version []) (before_all r [])
new-Added version m (err e) is same = tt
new-Added version m (ok m') is same =
    ((tt, tt), λ v other lacks. (λ e. other (sym e ∙ same ∙ is), tt))

cons_result-Added :
    (version : ℤ) (m : Migration) (ms : List Migration) (r : Result (List Migration))
    → m.version ≢ version
    → Distinct (m ∷ ms)
    → OnOk (Added version ms) r
    → OnOk (Added version (m ∷ ms)) (cons_result m r)
cons_result-Added version m ms (err e) other distinct added = tt
cons_result-Added version m ms (ok out) other distinct added =
    ((added.1 m.version other distinct.0, added.0), λ v new lacks. (lacks.0, added.1 v new lacks.1))

eqb_ℤ-differ : (a b : ℤ) → eqb_ℤ a b ≡ false → a ≢ b
eqb_ℤ-differ a b differ same =
    let equal : eqb_ℤ a b ≡ true = rw same (eqb_ℤ_refl b) in cc (equal, differ)

add_file-Added :
    (version : ℤ) (name direction body : Bytes) (ms : List Migration)
    → Distinct ms
    → OnOk (Added version ms) (add_file version name direction body ms)
unfolding add_file
add_file-Added version name direction body [] distinct =
    new-Added version (new_migration version name) _ refl (with_body-version direction body _)
add_file-Added version name direction body (m ∷ ms) distinct =
    elim (Bool-cases (eqb_ℤ m.version version)) [
      | inl same ↦ rw same (
          before_all-Added version m ms _ (eqb_ℤ-sound m.version version same) distinct
            (with_body-version direction body m))
      | inr other ↦ rw other (
          cons_result-Added version m ms _ (eqb_ℤ-differ m.version version other) distinct
            (add_file-Added version name direction body ms distinct.1))
    ]

OnOk-map :
    {A : Type 0} {P Q : A → Type 0} (r : Result A) → ((a : A) → P a → Q a) → OnOk P r → OnOk Q r
OnOk-map (ok a) f p = f a p
OnOk-map (err e) f p = tt

with_file-Distinct :
    (direction : Bytes) (body : Result Bytes) (ms : List Migration) (r : Result (ℤ × Bytes))
    → Distinct ms
    → OnOk Distinct (with_file direction body ms r)
with_file-Distinct direction body ms (err e) distinct = tt
with_file-Distinct direction (err e) ms (ok p) distinct = tt
with_file-Distinct direction (ok body) ms (ok p) distinct =
    OnOk-map (add_file p.0 p.1 direction body ms) (λ out added. added.0)
      (add_file-Added p.0 p.1 direction body ms distinct)

load_named-Distinct :
    (is_dir : Bool) (base : Option Bytes) (body : Result Bytes) (ms : List Migration)
    → Distinct ms
    → OnOk Distinct (load_named is_dir base body ms)
load_named-Distinct true base body ms distinct = distinct
load_named-Distinct false none body ms distinct = distinct
load_named-Distinct false (some base) body ms distinct = with_file-Distinct _ body ms _ distinct

next_file-OnOk :
    (P Q : List Migration → Type 0) (r : Result (List Migration))
    (rest : List Migration → Result (List Migration))
    → OnOk P r
    → ((ms : List Migration) → P ms → OnOk Q (rest ms))
    → OnOk Q (next_file r rest)
next_file-OnOk P Q (err e) rest p next = tt
next_file-OnOk P Q (ok ms) rest p next = next ms p

load_files-Distinct :
    (files : List File) (ms : List Migration) → Distinct ms → OnOk Distinct (load_files files ms)
unfolding load_files
load_files-Distinct [] ms distinct = distinct
load_files-Distinct (f ∷ files) ms distinct =
    next_file-OnOk _ _ (load_file f ms) (load_files files)
      (load_named-Distinct f.is_dir _ f.body ms distinct) (load_files-Distinct files)

insert-All :
    (P : Migration → Type 0) (m : Migration) (xs : List Migration)
    → P m
    → All P xs
    → All P (insert_by_version m xs)
unfolding insert_by_version
insert-All P m [] here all = (here, tt)
insert-All P m (x ∷ xs) here all = elim (Bool-cases (ltb_ℤ m.version x.version)) [
  | inl below ↦ rw below (here, all)
  | inr above ↦ rw above (all.0, insert-All P m xs here all.1)
]

above_of_differ : (a b : ℤ) → ltb_ℤ a b ≡ false → b ≢ a → b <ℤ a
above_of_differ a b above differ = elim (Bool-cases (eqb_ℤ b a)) [
  | inl same ↦ absurd (differ (eqb_ℤ-sound b a same))
  | inr other ↦ ground arith
]

less_of_ltb : (a b : ℤ) → ltb_ℤ a b ≡ true → a <ℤ b
less_of_ltb a b below = ground arith

less_trans : (a b c : ℤ) → a <ℤ b → b <ℤ c → a <ℤ c
less_trans a b c below above = omega arith

insert-Ascending :
    (m : Migration) (xs : List Migration)
    → Lacks m.version xs
    → Ascending xs
    → Ascending (insert_by_version m xs)
unfolding insert_by_version
insert-Ascending m [] lacks ascending = (tt, tt)
insert-Ascending m (x ∷ xs) lacks ascending = elim (Bool-cases (ltb_ℤ m.version x.version)) [
  | inl below ↦
      let less : m.version <ℤ x.version = less_of_ltb m.version x.version below in
      rw below (
        (less, All-map xs (λ y. less_trans m.version x.version y.version less) ascending.0),
        ascending,
      )
  | inr above ↦ rw above (
    insert-All _ m xs (above_of_differ m.version x.version above lacks.0) ascending.0,
    insert-Ascending m xs lacks.1 ascending.1,
  )
]

nonempty : (bytes : Bytes) → is_empty bytes ≡ false → bytes ≢ []
nonempty [] full same = cc (full)
nonempty (b ∷ bytes) full same = cc (same)

module _ (hex_sha256 : Bytes → Bytes) where
  abbrev Completed : List Migration → List Migration → Type 0
  Completed ms out =
      Ascending out × All (IsComplete hex_sha256) out × ((v : ℤ) → Lacks v ms → Lacks v out)

  completed-Completed :
      (empty : Bool) (m : Migration) (ms : List Migration) (r : Result (List Migration))
      → is_empty m.up ≡ empty
      → Lacks m.version ms
      → OnOk (Completed ms) r
      → OnOk (Completed (m ∷ ms)) (completed hex_sha256 empty m r)
  completed-Completed true m ms r is lacks done = tt
  completed-Completed false m ms (err e) is lacks done = tt
  completed-Completed false m ms (ok out) is lacks done = (
    insert-Ascending _ out (done.2 m.version lacks) done.0,
    insert-All _ _ out (nonempty m.up is, refl) done.1,
    λ v lacks_v. insert-All _ _ out lacks_v.0 (done.2 v lacks_v.1),
  )

  complete_all-Completed :
      (ms : List Migration) → Distinct ms → OnOk (Completed ms) (complete_all hex_sha256 ms)
  unfolding complete_all
  complete_all-Completed [] distinct = (tt, tt, λ v lacks. tt)
  complete_all-Completed (m ∷ ms) distinct =
      completed-Completed (is_empty m.up) m ms (complete_all hex_sha256 ms) refl distinct.0
        (complete_all-Completed ms distinct.1)

  load_read-Ascending :
      (files : Files)
      → OnOk (λ out. Ascending out × All (IsComplete hex_sha256) out) (load_read hex_sha256 files)
  load_read-Ascending (err e) = tt
  load_read-Ascending (ok files) =
      next_file-OnOk _ _ (load_files files []) (complete_all hex_sha256)
        (load_files-Distinct files [] tt)
        (λ ms distinct.
          OnOk-map (complete_all hex_sha256 ms) (λ out done. (done.0, done.1))
            (complete_all-Completed ms distinct))

  -- If LoadMigrations succeeds, whatever the directory holds, then the versions of its migrations
  -- ascend strictly, each migration has a body to go up, and its checksum is that of this body.
  pub load_migrations-Ascending :
      (files : Files) (ms : List Migration)
      → load_migrations hex_sha256 files ≡ ok ms
      → Ascending ms × All (IsComplete hex_sha256) ms
  unfolding load_migrations
  load_migrations-Ascending files ms loaded =
      subst (OnOk (λ out. Ascending out × All (IsComplete hex_sha256) out)) loaded
        (load_read-Ascending files)
