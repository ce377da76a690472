-- ===== src/Programs/Migrate/Runs.antt =====
-- Runs of cmd/migrate, one after another.
use go_ledger.Base.{
  ℕ, ℤ, ◌≤ℤ◌, eqb_ℤ, eqb_ℤ-sound, ◌≡◌, refl, sym, ap, subst, Bool, true, false, not, ◌&&◌, ◌||◌,
  Option, none, some, is_some, List, [], ◌∷◌, Bytes, bytes_equal, arith, All, All-map, Bool-cases,
  inl, inr,
}
use text.Mathlib.Text.{◌==◌ as str_eq}
use go_ledger.Domain.Errors.{Error, opaque, Result, ok, err}
use go_ledger.Storage.Migrate.Load.{Files, Migration, load_migrations}
use go_ledger.Storage.Migrate.{Applied, State, Driver, applied_checksum, version}
use go_ledger.Storage.Migrate.Reference.{IsRecorded}
use go_ledger.Storage.Migrate.Upgrade.{Counts, up-Ran}
use go_ledger.Storage.Migrate.Highest.{IsVersion, version-IsVersion}
use go_ledger.Programs.Config.{Environment}
use go_ledger.Programs.Migrate.{
  Report, applied, schema_version, up_command, down_command, version_command, steps_of,
  version_reported, roll_back, command, connected, run, or_error,
}

-- a recorded version is not above the version that the rows give
recorded-below :
    (v w : ℤ) (sum : Bytes) (rows : List Applied)
    → applied_checksum w rows ≡ some sum
    → All (λ (r : Applied). r.version ≤ℤ v) rows
    → w ≤ℤ v
unfolding applied_checksum
recorded-below v w sum [] found below = cc (found)
recorded-below v w sum (r ∷ rows) found below = elim (Bool-cases (eqb_ℤ r.version w)) [
  | inl same ↦ subst (λ x. x ≤ℤ v) (eqb_ℤ-sound r.version w same) below.0
  | inr other ↦ recorded-below v w sum rows (rw other at found) below.1
]

version_reported-ok : (r : Result ℤ) (v : ℤ) → version_reported r ≡ ok (schema_version v) → r ≡ ok v
version_reported-ok (ok w) v is = cc (is)
version_reported-ok (err e) v is = cc (is)

module _ {S : Type 0} (driver : Driver S) (hex_sha256 : Bytes → Bytes) (files : Files) where
  -- a run that prints its report has come to its command
  run-ok :
      (getenv : Environment) (connect_error : Option Error) (name : Bytes) (args : List Bytes)
      (s s' : State S) (report : Report)
      → run driver hex_sha256 files getenv connect_error (name ∷ args) s ≡ (ok report, s')
      → command driver hex_sha256 files name args s ≡ (ok report, s')
  unfolding run
  run-ok getenv connect_error name args s s' report is =
      elim (Bool-cases (str_eq (getenv "DATABASE_URL") "")) [
        | inl empty ↦
            let bad : (err (opaque "DATABASE_URL is required"), s) ≡ (ok report, s') =
              rw empty at is in
            cc (bad)
        | inr given ↦ came connect_error (rw given at is)
      ]
    where
      came :
          (o : Option Error)
          → connected driver hex_sha256 files o (command driver hex_sha256 files name args) s
            ≡ (ok report, s')
          → command driver hex_sha256 files name args s ≡ (ok report, s')
      came none is' = is'
      came (some e) is' = cc (is')

abbrev is_count : Result ℕ → Bool
is_count (ok n) = true
is_count (err e) = false

-- the arguments on which the program may change the schema
abbrev pub may_change : List Bytes → Bool
may_change [] = false
may_change (name ∷ args) =
    bytes_equal name up_command || bytes_equal name down_command && is_count (steps_of args)

module _ {S : Type 0} (driver : Driver S) (hex_sha256 : Bytes → Bytes) (files : Files) where
  All-IsRecorded :
      (ms rest : List Migration) (ran given : ℕ) (o : Option Error) (report report' : Report)
      (last s' : State S)
      → Counts driver ms rest last ran 0 given o
      → ◌≡◌ {A = Result Report × State S} (or_error o report, last) (ok report', s')
      → All (IsRecorded s'.rows) ms
  All-IsRecorded ms rest ran given none report report' last s' counts is =
      let same : last ≡ s' = ap (λ q. q.1) is in
      subst (λ (x : State S). All (IsRecorded x.rows) ms) same counts.2
  All-IsRecorded ms rest ran given (some e) report report' last s' counts is = cc (is)

  -- `migrate up` and then `migrate version`, against drivers that may fail. If the first reports
  -- that it has applied its migrations, and the second reports a version, then the second has
  -- changed nothing, every migration of the program is recorded with its checksum, none has a
  -- version above the one that is reported, and that one is the highest version of an applied
  -- migration.
  pub up_then_version :
      (driver' : Driver S) (getenv getenv' : Environment)
      (connect_error connect_error' : Option Error) (args args' : List Bytes) (s s' s'' : State S)
      (ms : List Migration) (n : ℕ) (v : ℤ)
      → load_migrations hex_sha256 files ≡ ok ms
      → run driver hex_sha256 files getenv connect_error (up_command ∷ args) s
        ≡ (ok (applied n), s')
      → run driver' hex_sha256 files getenv' connect_error' (version_command ∷ args') s'
        ≡ (ok (schema_version v), s'')
      → (s'' ≡ s')
        × All (IsRecorded s'.rows) ms
        × All (λ (m : Migration). m.version ≤ℤ v) ms
        × IsVersion v s'.rows
  unfolding command bytes_equal
  up_then_version driver' getenv getenv' connect_error connect_error' args args' s s' s'' ms n v
        loaded went_up told =
      let upgraded =
        run-ok driver hex_sha256 files getenv connect_error up_command args s s' (applied n)
          went_up in
      let shown =
        run-ok driver' hex_sha256 files getenv' connect_error' version_command args' s' s''
          (schema_version v) told in
      let ran = up-Ran driver hex_sha256 files s ms loaded in
      let recorded : All (IsRecorded s'.rows) ms =
        All-IsRecorded ms ran.rest _ _ _ _ _ _ s' ran.counts upgraded in
      let is_version : IsVersion v s'.rows =
        version-IsVersion driver' s' v
          (version_reported-ok (version driver' s') v (ap (λ p. p.0) shown)) in
      (
        sym (ap (λ p. p.1) shown),
        recorded,
        All-map ms (λ m found. recorded-below v m.version m.checksum s'.rows found is_version.0)
            recorded,
        is_version,
      )

  roll_back_keeps :
      (r : Result ℕ) (s : State S)
      → is_count r ≡ false
      → (roll_back driver hex_sha256 files r s).1 ≡ s
  roll_back_keeps (ok n) s no_count = cc (no_count)
  roll_back_keeps (err e) s no_count = refl

  command_keeps :
      (name : Bytes) (args : List Bytes) (s : State S)
      → may_change (name ∷ args) ≡ false
      → (command driver hex_sha256 files name args s).1 ≡ s
  unfolding command
  command_keeps name args s no_change = elim (Bool-cases (bytes_equal name up_command)) [
    | inl is_up ↦ let bad : true ≡ false = rw is_up at no_change in cc (bad)
    | inr not_up ↦ elim (Bool-cases (bytes_equal name down_command)) [
      | inl is_down ↦
          rw (not_up, is_down)
            (roll_back_keeps (steps_of args) s (rw (not_up, is_down) at no_change))
      | inr not_down ↦ elim (Bool-cases (bytes_equal name version_command)) [
        | inl is_version ↦ rw (not_up, not_down, is_version) refl
        | inr unknown ↦ rw (not_up, not_down, unknown) refl
      ]
    ]
  ]

  -- Only `migrate up`, and `migrate down` with a count that is a number or left out, can change the
  -- database. With any other arguments, none at all included, with any environment and any faults,
  -- run leaves the schema and its table of migrations as they were; and so does every run without
  -- DATABASE_URL or without a connection.
  pub run_keeps :
      (getenv : Environment) (connect_error : Option Error) (args : List Bytes) (s : State S)
      → (may_change args && not (str_eq (getenv "DATABASE_URL") "") && not (is_some connect_error))
        ≡ false
      → (run driver hex_sha256 files getenv connect_error args s).1 ≡ s
  unfolding run
  run_keeps getenv connect_error [] s no_change = refl
  run_keeps getenv connect_error (name ∷ args) s no_change =
      elim (Bool-cases (str_eq (getenv "DATABASE_URL") "")) [
        | inl empty ↦ rw empty refl
        | inr given ↦ rw given (connects connect_error (rw given at no_change))
      ]
    where
      connects :
          (o : Option Error)
          → (may_change (name ∷ args) && true && not (is_some o)) ≡ false
          → (connected driver hex_sha256 files o (command driver hex_sha256 files name args) s).1
            ≡ s
      connects none no_change' = command_keeps name args s (ground arith)
      connects (some e) no_change' = refl
