-- ===== src/Programs/Migrate.antt =====
-- cmd/migrate/main.go: the program that migrates the schema. The arguments are those behind the
-- program's name. The error of connecting is a parameter, and closing the connection is left out.
pub mod Runs
use go_ledger.Base.{
  ℕ, ℤ, pos, negsuc, ◌≡◌, String, Bool, true, false, Option, none, some, List, [], ◌∷◌, Bytes,
  bytes_equal, if◌then◌else◌,
}
use text.Mathlib.Text.{◌==◌ as str_eq}
use go_ledger.Domain.Errors.{Error, opaque, wrap, Result, ok, err}
use go_ledger.Storage.Migrate.Load.{Files, parse_int}
use go_ledger.Storage.Migrate.{State, Driver, Outcome, up, down, version}
use go_ledger.Programs.Config.{Environment}

-- what the program prints
pub data Report : Type 0 where
  applied rolled_back : ℕ → Report
  schema_version : ℤ → Report

-- the commands, as the bytes of the arguments
abbrev pub up_command : Bytes
up_command = b'u' ∷ b'p' ∷ []

abbrev pub down_command : Bytes
down_command = b'd' ∷ b'o' ∷ b'w' ∷ b'n' ∷ []

abbrev pub version_command : Bytes
version_command = b'v' ∷ b'e' ∷ b'r' ∷ b's' ∷ b'i' ∷ b'o' ∷ b'n' ∷ []

-- strconv.Atoi of the argument of down; Down stops at once with a count that is not positive
abbrev pub step_count : Option ℤ → Result ℕ
step_count none = err (wrap "down: bad step count" (opaque "strconv.Atoi"))
step_count (some (pos n)) = ok n
step_count (some (negsuc n)) = ok 0

abbrev pub steps_of : List Bytes → Result ℕ
steps_of [] = ok 1
steps_of (arg ∷ args) = step_count (parse_int arg)

abbrev pub or_error : Option Error → Report → Result Report
or_error none report = ok report
or_error (some e) report = err e

abbrev pub reported : {S : Type 0} → (ℕ → Report) → Outcome × State S → Result Report × State S
reported report p = (or_error p.0.error (report p.0.count), p.1)

abbrev pub version_reported : Result ℤ → Result Report
version_reported (ok v) = ok (schema_version v)
version_reported (err e) = err e

module _ {S : Type 0} (driver : Driver S) (hex_sha256 : Bytes → Bytes) (files : Files) where
  abbrev pub roll_back : Result ℕ → State S → Result Report × State S
  roll_back (err e) s = (err e, s)
  roll_back (ok n) s = reported rolled_back (down driver hex_sha256 files n s)

  -- the switch on the first argument
  unfoldable pub command : Bytes → List Bytes → State S → Result Report × State S
  command name args s =
      if bytes_equal name up_command
      then reported applied (up driver hex_sha256 files s)
      else if bytes_equal name down_command
      then roll_back (steps_of args) s
      else if bytes_equal name version_command
      then (version_reported (version driver s), s)
      else (err (opaque "unknown command"), s)

  abbrev pub connected :
      Option Error → (State S → Result Report × State S) → State S → Result Report × State S
  connected (some e) rest s = (err (wrap "connect" e), s)
  connected none rest s = rest s

  -- run, by the error of pgx.Connect
  unfoldable pub run : Environment → Option Error → List Bytes → State S → Result Report × State S
  unfolding command
  run getenv connect_error [] s = (err (opaque "usage: migrate (up|down [n]|version)"), s)
  run getenv connect_error (name ∷ args) s =
      if str_eq (getenv "DATABASE_URL") ""
      then (err (opaque "DATABASE_URL is required"), s)
      else connected connect_error (command name args) s

-- main: the exit code
abbrev pub exit_code : {A : Type 0} → Result A → ℕ
exit_code (ok _) = 0
exit_code (err _) = 1
