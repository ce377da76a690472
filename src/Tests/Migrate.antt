-- ===== src/Tests/Migrate.antt =====
-- Migrations at concrete inputs: two of them over a schema that is a list, which each lengthens.
use go_ledger.Base.{
  ℕ, pos, ◌≡◌, refl, ap, true, false, none, List, [], ◌∷◌, Bytes, bytes_equal, All, ◌-ℤ◌,
}
use go_ledger.Domain.Errors.{Result, ok, err, opaque, ok-injective}
use go_ledger.Storage.Migrate.Load.{
  Files, Migration, load_migrations, load_files, before_suffix, split_ext, cut, parse_int,
  parse_digits, add_file, complete_all, insert_by_version,
}
use go_ledger.Storage.Migrate.{
  State, Driver, Outcome, ended, up, down, version, max_version, up_loop, apply_one,
  applied_checksum,
}
use go_ledger.Storage.Migrate.Sorted.{Ascending, IsComplete, load_migrations-Ascending}
use go_ledger.Storage.Migrate.Reference.{pending}
use go_ledger.Storage.Migrate.Again.{up_again}
use go_ledger.Storage.Migrate.RoundTrip.{calm, IsUndone, down-up}
use go_ledger.Storage.Migrate.Highest.{IsVersion, version-IsVersion}

-- 2_b.up.sql, 1_a.down.sql, 1_a.up.sql and 2_b.down.sql
abbrev pub test_files : Files
test_files = ok (
    record {
      name = 50 ∷ 95 ∷ 98 ∷ 46 ∷ 117 ∷ 112 ∷ 46 ∷ 115 ∷ 113 ∷ 108 ∷ [];
      is_dir = false;
      body = ok (1 ∷ []);
    }
    ∷ record {
      name = 49 ∷ 95 ∷ 97 ∷ 46 ∷ 100 ∷ 111 ∷ 119 ∷ 110 ∷ 46 ∷ 115 ∷ 113 ∷ 108 ∷ [];
      is_dir = false;
      body = ok (2 ∷ []);
    }
    ∷ record {
      name = 49 ∷ 95 ∷ 97 ∷ 46 ∷ 117 ∷ 112 ∷ 46 ∷ 115 ∷ 113 ∷ 108 ∷ [];
      is_dir = false;
      body = ok (1 ∷ []);
    }
    ∷ record {
      name = 50 ∷ 95 ∷ 98 ∷ 46 ∷ 100 ∷ 111 ∷ 119 ∷ 110 ∷ 46 ∷ 115 ∷ 113 ∷ 108 ∷ [];
      is_dir = false;
      body = ok (2 ∷ []);
    }
    ∷ [])

abbrev pub test_hash : Bytes → Bytes
test_hash b = 7 ∷ b

abbrev pub migration_of : ℕ → ℕ → Migration
migration_of version letter = record {
  version = pos version;
  name = letter ∷ [];
  up = 1 ∷ [];
  down = 2 ∷ [];
  checksum = 7 ∷ 1 ∷ [];
}

abbrev pub test_migrations : List Migration
test_migrations = migration_of 1 97 ∷ migration_of 2 98 ∷ []

pub loaded : load_migrations test_hash test_files ≡ ok test_migrations
unfolding load_migrations load_files before_suffix split_ext cut parse_int parse_digits add_file
    complete_all insert_by_version bytes_equal ◌-ℤ◌
loaded = refl

-- up lengthens the list, and down shortens it
abbrev pub shortened : List ℕ → Result (List ℕ)
shortened (x ∷ schema) = ok schema
shortened [] = err (opaque "relation does not exist")

abbrev pub test_sql : Bytes → List ℕ → Result (List ℕ)
test_sql body schema = elim (bytes_equal body (1 ∷ [])) [
  | true ↦ ok (0 ∷ schema)
  | false ↦ shortened schema
]

abbrev pub test_driver : Driver (List ℕ)
test_driver = record { run_sql = test_sql; fault = λ _. none; commit_fault = λ _. none }

abbrev pub fresh : State (List ℕ)
fresh = record { schema = []; rows = [] }

load_migrations-Ascending_example :
    Ascending test_migrations × All (IsComplete test_hash) test_migrations
load_migrations-Ascending_example =
    load_migrations-Ascending test_hash test_files test_migrations loaded

up-run : (up test_driver test_hash test_files fresh).0 ≡ record { count = 2; error = none }
unfolding up load_migrations load_files before_suffix split_ext cut parse_int parse_digits add_file
    complete_all insert_by_version bytes_equal ◌-ℤ◌ up_loop apply_one applied_checksum
up-run = refl

up_again_example :
    up test_driver test_hash test_files (up test_driver test_hash test_files fresh).1
    ≡ ended 0 none (up test_driver test_hash test_files fresh).1
up_again_example =
    up_again test_hash test_driver test_driver test_files fresh test_migrations loaded
      (ap (λ (o : Outcome). o.error) up-run) refl refl refl

undone : (version letter : ℕ) → IsUndone test_driver (migration_of version letter)
unfolding bytes_equal
undone version letter = (refl, λ schema schema' went. rw (← ok-injective went) refl)

none_applied : pending test_migrations fresh.rows ≡ test_migrations
unfolding pending applied_checksum
none_applied = refl

down-up_example :
    down
      (calm test_driver)
      test_hash
      test_files
      (up test_driver test_hash test_files fresh).0.count
      (up test_driver test_hash test_files fresh).1
    ≡ ended 2 none fresh
down-up_example =
    down-up test_driver test_hash test_files fresh [] test_migrations loaded none_applied
      (undone 1 97, (undone 2 98, tt)) (ap (λ (o : Outcome). o.error) up-run)

abbrev third : State (List ℕ)
third = record {
  schema = [];
  rows =
      record { version = pos 3; name = []; checksum = [] }
      ∷ record { version = pos 1; name = []; checksum = [] }
      ∷ [];
}

version-run : version test_driver third ≡ ok (pos 3)
unfolding version max_version
version-run = refl

version-IsVersion_example : IsVersion (pos 3) third.rows
version-IsVersion_example = version-IsVersion test_driver third (pos 3) version-run
