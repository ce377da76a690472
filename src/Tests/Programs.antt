-- ===== src/Tests/Programs.antt =====
-- Runs of the programs at concrete inputs.
use go_ledger.Base.{
  ◌≡◌, refl, none, [], ◌∷◌, pos, ◌≤ℤ◌, List, ℕ, if◌then◌else◌, All, bytes_equal, String, ℤ,
}
use text.Mathlib.Text.{◌==◌}
use go_ledger.Domain.Errors.{Result, ok, err, opaque}
use go_ledger.Storage.Migrate.Load.{
  Migration, load_migrations, load_files, before_suffix, split_ext, cut, parse_int, parse_digits,
  add_file, complete_all, insert_by_version,
}
use go_ledger.Storage.Migrate.{
  State, up, up_loop, apply_one, applied_checksum, version, max_version,
}
use go_ledger.Storage.Migrate.Reference.{IsRecorded}
use go_ledger.Storage.Migrate.Highest.{IsVersion}
use go_ledger.Relay.{tick, cancelled}
use go_ledger.Relay.Drain.{is_cancelled}
use go_ledger.Programs.Config.{Environment}
use go_ledger.Programs.Pool.{PoolLibrary}
use go_ledger.Programs.Api.{signalled}
use go_ledger.Programs.Api
use go_ledger.Programs.Relay
use go_ledger.Programs.Order.{IsOrdered, run-IsOrdered, IsRelayed, relay_run-IsRelayed}
use go_ledger.Programs.Migrate.{applied, schema_version, up_command, version_command, run, command}
use go_ledger.Programs.Migrate.Runs.{up_then_version}
use go_ledger.Tests.{outbox_start, outbox_start-Valid}
use go_ledger.Tests.Relay.{test_round, few_attempts}
use go_ledger.Tests.Migrate.{test_files, test_hash, test_migrations, test_driver, fresh, loaded}
use go_ledger.Base.{◌-ℤ◌}

-- DATABASE_URL is set, and nothing else
abbrev test_environment : Environment
test_environment = λ key. if key == "DATABASE_URL" then "postgres://ledger" else ""

abbrev no_durations : String → Result ℤ
no_durations = λ _. err (opaque "time: invalid duration")

abbrev test_pool : PoolLibrary
test_pool = record { parse_config = λ _. none; new_with_config = none; ping = none }

run-IsOrdered_example :
    IsOrdered (Api.run (λ _. none) test_pool (signalled none) test_environment no_durations)
run-IsOrdered_example =
    run-IsOrdered (λ _. none) test_pool (signalled none) test_environment no_durations

relay_run-IsRelayed_example : IsRelayed (is_cancelled (tick (λ _. test_round) ∷ cancelled ∷ [])) (
    Relay.run
      (λ _. none)
      test_pool
      50
      (tick (λ _. test_round) ∷ cancelled ∷ [])
      outbox_start
      test_environment
      no_durations)
relay_run-IsRelayed_example =
    relay_run-IsRelayed (λ _. none) test_pool 50 (tick (λ _. test_round) ∷ cancelled ∷ [])
      outbox_start outbox_start-Valid few_attempts test_environment no_durations

abbrev migrated : State (List ℕ)
migrated = (up test_driver test_hash test_files fresh).1

up-run :
    (run test_driver test_hash test_files test_environment none (up_command ∷ []) fresh
      ≡ (ok (applied 2), migrated))
    × (run test_driver test_hash test_files test_environment none (version_command ∷ []) migrated
        ≡ (ok (schema_version (pos 2)), migrated))
unfolding run command up load_migrations load_files before_suffix split_ext cut parse_int
    parse_digits add_file complete_all insert_by_version bytes_equal ◌-ℤ◌ up_loop apply_one
    applied_checksum version max_version
up-run = (refl, refl)

up_then_version_example :
    (migrated ≡ migrated)
    × All (IsRecorded migrated.rows) test_migrations
    × All (λ (m : Migration). m.version ≤ℤ pos 2) test_migrations
    × IsVersion (pos 2) migrated.rows
up_then_version_example =
    up_then_version test_driver test_hash test_files test_driver test_environment test_environment
      none none [] [] fresh migrated migrated test_migrations 2 (pos 2) loaded up-run.0 up-run.1
