-- ===== src/Storage/Migrate.antt =====
-- internal/storage/postgres/migrate.go: Up, Down, applyOne and Version. A state is the schema, whose
-- type is a parameter, with the rows of schema_migrations, the newest first; a table that is not
-- there yet is one without rows. The column applied_at is never read.
pub mod Load
pub mod Sorted
pub mod Reference
pub mod Upgrade
pub mod Again
pub mod RoundTrip
pub mod Highest
use go_ledger.Base.{
  ℕ, zero, suc, ◌+◌, ℤ, pos, ltb_ℤ, eqb_ℤ, String, Bool, true, false, Option, none, some, List, [],
  ◌∷◌, Bytes, bytes_equal, ltb, is_some, if◌then◌else◌,
}
use go_ledger.Domain.Errors.{Error, opaque, wrap, Result, ok, err}
use go_ledger.Storage.Session.{CommitFault, refused, ack_lost, contextualise}
use go_ledger.Storage.Migrate.Load.{Files, Migration, load_migrations, is_empty}

-- a row of schema_migrations
pub record Applied : Type 0 where
  pub version : ℤ
  pub name : Bytes
  pub checksum : Bytes

pub record State (S : Type 0) : Type 0 where
  pub schema : S
  pub rows : List Applied

-- where the code calls the driver; a migration's calls by its version
pub data MigrationCall : Type 0 where
  lock ensure read read_version : MigrationCall
  begins runs records : ℤ → MigrationCall

pub record Driver (S : Type 0) : Type 0 where
  -- what PostgreSQL makes of the schema by the body of a migration
  pub run_sql : Bytes → S → Result S
  pub fault : MigrationCall → Option String
  pub commit_fault : ℤ → Option CommitFault

-- appliedMigrations
unfoldable pub applied_checksum : ℤ → List Applied → Option Bytes
applied_checksum v [] = none
applied_checksum v (r ∷ rows) =
    if eqb_ℤ r.version v then some r.checksum else applied_checksum v rows

abbrev pub row_of : Migration → Applied
row_of m = record { version = m.version; name = m.name; checksum = m.checksum }

unfoldable pub delete_version : ℤ → List Applied → List Applied
delete_version v [] = []
delete_version v (r ∷ rows) =
    let rest = delete_version v rows in if eqb_ℤ r.version v then rest else r ∷ rest

-- the INSERT, with the primary key of the table, and the DELETE
abbrev pub recorded : Bool → Migration → List Applied → Result (List Applied)
recorded true m rows =
    if is_some (applied_checksum m.version rows)
    then err (opaque "duplicate key value violates unique constraint schema_migrations_pkey")
    else ok (row_of m ∷ rows)
recorded false m rows = ok (delete_version m.version rows)

abbrev pub body_of : Bool → Migration → Bytes
body_of true m = m.up
body_of false m = m.down

-- a call of the driver, which may fail
abbrev pub called : {A : Type 0} → Option String → Result A → Result A
called none r = r
called (some message) r = err (opaque message)

-- the rest of a transaction, unless the call has failed
abbrev pub attempt :
    {A S : Type 0}
    → Result A
    → State S
    → (A → Result (Unit {0}) × State S)
    → Result (Unit {0}) × State S
attempt (ok a) s next = next a
attempt (err e) s next = (err e, s)

abbrev pub committed :
    {S : Type 0} → Option CommitFault → State S → State S → Result (Unit {0}) × State S
committed none new old = (ok tt, new)
committed (some (refused message)) new old = (err (opaque message), old)
committed (some (ack_lost message)) new old = (err (opaque message), new)

-- What Up and Down return beside the state.
pub record Outcome : Type 0 where
  pub count : ℕ
  pub error : Option Error

abbrev pub ended : {S : Type 0} → ℕ → Option Error → State S → Outcome × State S
ended count error s = (record { count = count; error = error }, s)

-- the end of the body of both loops
abbrev pub counted :
    {S : Type 0}
    → Result (Unit {0}) × State S
    → ℕ
    → (ℕ → State S → Outcome × State S)
    → Outcome × State S
counted (ok _, s) count rest = rest (suc count) s
counted (err e, s) count rest = ended count (some e) s

-- a list from its end to its start, before another
unfoldable pub reversed : List Migration → List Migration → List Migration
reversed [] more = more
reversed (m ∷ ms) more = reversed ms (m ∷ more)

abbrev pub highest : ℤ → List Applied → ℤ
highest v [] = v
highest v (r ∷ rows) = highest (if ltb_ℤ v r.version then r.version else v) rows

-- SELECT MAX(version), with the NULL of an empty table read as 0
unfoldable pub max_version : List Applied → ℤ
max_version [] = pos 0
max_version (r ∷ rows) = highest r.version rows

module _ {S : Type 0} (driver : Driver S) where
  -- the stages of applyOne; the messages leave out the version and the name of the migration
  abbrev pub commit_stage : Migration → S → State S → List Applied → Result (Unit {0}) × State S
  commit_stage m schema s rows =
      committed (driver.commit_fault m.version) (record { schema = schema; rows = rows }) s

  abbrev pub record_stage : Migration → Bool → State S → S → Result (Unit {0}) × State S
  record_stage m up s schema =
      attempt
        (contextualise "record migration"
          (called (driver.fault (records m.version)) (recorded up m s.rows)))
        s (commit_stage m schema s)

  abbrev pub run_stage : Migration → Bool → State S → Unit {0} → Result (Unit {0}) × State S
  run_stage m up s _ =
      attempt
        (contextualise "migration"
          (called (driver.fault (runs m.version)) (driver.run_sql (body_of up m) s.schema)))
        s (record_stage m up s)

  -- applyOne
  unfoldable pub apply_one : Migration → Bool → State S → Result (Unit {0}) × State S
  unfolding applied_checksum delete_version
  apply_one m up s =
      attempt (contextualise "begin migration" (called (driver.fault (begins m.version)) (ok tt))) s
        (run_stage m up s)

  -- one migration of the loop of Up, by the checksum that it was applied with
  abbrev pub up_step :
      Migration → Option Bytes → ℕ → State S → (ℕ → State S → Outcome × State S) → Outcome × State S
  up_step m none count s rest = counted (apply_one m true s) count rest
  up_step m (some sum) count s rest = elim (bytes_equal sum m.checksum) [
    | true ↦ rest count s
    | false ↦ ended count (some (opaque "migration was modified after being applied")) s
  ]

  -- the loop of Up, by the rows that were read before it
  unfoldable pub up_loop : List Migration → List Applied → ℕ → State S → Outcome × State S
  unfolding apply_one applied_checksum
  up_loop [] applied count s = ended count none s
  up_loop (m ∷ ms) applied count s =
      up_step m (applied_checksum m.version applied) count s (up_loop ms applied)

  -- one migration of the loop of Down
  abbrev pub down_step :
      Migration → Option Bytes → ℕ → State S → (ℕ → State S → Outcome × State S) → Outcome × State S
  down_step m none count s rest = rest count s
  down_step m (some _) count s rest = elim (is_empty m.down) [
    | true ↦ ended count (some (opaque "migration has no down migration")) s
    | false ↦ counted (apply_one m false s) count rest
  ]

  -- the loop of Down, over the migrations from the newest
  unfoldable pub down_loop : List Migration → List Applied → ℕ → ℕ → State S → Outcome × State S
  unfolding apply_one applied_checksum
  down_loop [] applied n count s = ended count none s
  down_loop (m ∷ ms) applied n count s = elim (ltb count n) [
    | true ↦ down_step m (applied_checksum m.version applied) count s (down_loop ms applied n)
    | false ↦ ended count none s
  ]

  -- a call whose error ends Up or Down before its loop
  abbrev pub ready : {A : Type 0} → Result A → State S → (A → Outcome × State S) → Outcome × State S
  ready (ok a) s rest = rest a
  ready (err e) s rest = ended 0 (some e) s

  abbrev pub locked : Result (Unit {0})
  locked = contextualise "acquire migration lock" (called (driver.fault lock) (ok tt))

  module _ (hex_sha256 : Bytes → Bytes) where
    unfoldable pub up : Files → State S → Outcome × State S
    unfolding load_migrations up_loop
    up files s = ready (load_migrations hex_sha256 files) s λ ms. ready locked s λ _.
        ready (contextualise "ensure schema_migrations" (called (driver.fault ensure) (ok tt))) s
          λ _.
            ready (contextualise "read schema_migrations" (called (driver.fault read) (ok s.rows)))
              s λ applied. up_loop ms applied 0 s

    -- The number is an int in Go; a negative one is as zero.
    unfoldable pub down : Files → ℕ → State S → Outcome × State S
    unfolding load_migrations down_loop reversed
    down files n s = ready (load_migrations hex_sha256 files) s λ ms. ready locked s λ _.
        ready (called {A = Unit {0}} (driver.fault ensure) (ok tt)) s λ _.
          ready (called (driver.fault read) (ok s.rows)) s
            λ applied. down_loop (reversed ms []) applied n 0 s

  abbrev pub version_read : State S → Result (Unit {0}) → Result ℤ
  version_read s (err e) = err e
  version_read s (ok _) = called (driver.fault read_version) (ok (max_version s.rows))

  unfoldable pub version : State S → Result ℤ
  unfolding max_version
  version s = version_read s (called (driver.fault ensure) (ok tt))
