-- ===== src/Storage/Migrate/Again.antt =====
-- Up on a database that Up has brought up to date.
use go_ledger.Base.{ℕ, ◌≡◌, refl, Option, none, some, List, [], ◌∷◌, Bytes, bytes_equal_refl, All}
use go_ledger.Domain.Errors.{Error, ok}
use go_ledger.Storage.Migrate.Load.{Files, Migration, load_migrations}
use go_ledger.Storage.Migrate.{
  Applied, State, lock, ensure, read, Driver, Outcome, ended, up_step, up_loop, up,
}
use go_ledger.Storage.Migrate.Reference.{pending, IsRecorded}
use go_ledger.Storage.Migrate.Upgrade.{Ran, Counts, up-Ran}

module _ {S : Type 0} where
  recorded_loop :
      (driver : Driver S) (ms : List Migration) (applied : List Applied) (count : ℕ) (s : State S)
      → All (IsRecorded applied) ms
      → up_loop driver ms applied count s ≡ ended count none s
  unfolding up_loop
  recorded_loop driver [] applied count s all = refl
  recorded_loop driver (m ∷ ms) applied count s all =
      rw (all.0, up_step, bytes_equal_refl m.checksum)
        (recorded_loop driver ms applied count s all.1)

  no_error-IsRecorded :
      (driver : Driver S) (ms rest : List Migration) (s : State S) (ran count given : ℕ)
      (error : Option Error)
      → error ≡ none
      → Counts driver ms rest s ran count given error
      → All (IsRecorded s.rows) ms
  no_error-IsRecorded driver ms rest s ran count given none is counts = counts.2
  no_error-IsRecorded driver ms rest s ran count given (some e) is counts = cc (is)

  up_recorded :
      (hex_sha256 : Bytes → Bytes) (driver : Driver S) (files : Files) (s : State S)
      (ms : List Migration)
      → load_migrations hex_sha256 files ≡ ok ms
      → All (IsRecorded s.rows) ms
      → driver.fault lock ≡ none
      → driver.fault ensure ≡ none
      → driver.fault read ≡ none
      → up driver hex_sha256 files s ≡ ended 0 none s
  unfolding up
  up_recorded hex_sha256 driver files s ms loaded all locks ensures reads =
      rw (loaded, locks, ensures, reads) (recorded_loop driver ms s.rows 0 s all)

  -- Up is idempotent. If Up has ended without an error, then a second Up, by any driver that answers
  -- the lock and the bookkeeping queries, ends without an error, applies no migration and leaves the
  -- schema and the rows as they are.
  pub up_again :
      (hex_sha256 : Bytes → Bytes) (driver driver' : Driver S) (files : Files) (s : State S)
      (ms : List Migration)
      → load_migrations hex_sha256 files ≡ ok ms
      → (up driver hex_sha256 files s).0.error ≡ none
      → driver'.fault lock ≡ none
      → driver'.fault ensure ≡ none
      → driver'.fault read ≡ none
      → up driver' hex_sha256 files (up driver hex_sha256 files s).1
        ≡ ended 0 none (up driver hex_sha256 files s).1
  up_again hex_sha256 driver driver' files s ms loaded fine locks ensures reads =
      let p : Outcome × State S = up driver hex_sha256 files s in
      let ran : Ran driver ms (pending ms s.rows) 0 s p =
        up-Ran driver hex_sha256 files s ms loaded in
      let all : All (IsRecorded p.1.rows) ms =
        no_error-IsRecorded driver ms ran.rest p.1 _ 0 p.0.count p.0.error fine ran.counts in
      up_recorded hex_sha256 driver' files p.1 ms loaded all locks ensures reads
