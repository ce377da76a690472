-- ===== src/Storage/Migrate/RoundTrip.antt =====
-- Down takes back what Up has done.
use go_ledger.Base.{
  ℕ, suc, ◌+◌, ◌≤◌, ℤ, eqb_ℤ, eqb_ℤ_refl, ltb, ◌≡◌, refl, ap, ◌∙◌, subst, true, false, Option, none,
  some, List, [], ◌∷◌, ◌++◌, Bytes, length, All, Bool-cases, inl, inr, arith,
}
use mathlib.Core.List.{append-nil}
use go_ledger.Domain.Errors.{Error, ok, ok-injective}
use go_ledger.Storage.Migrate.Load.{Files, Migration, load_migrations, is_empty}
use go_ledger.Storage.Migrate.{
  Applied, State, Driver, applied_checksum, delete_version, Outcome, ended, reversed, apply_one,
  down_step, down_loop, up, down,
}
use go_ledger.Storage.Migrate.Reference.{
  pending, IsRecorded, migrate, Goes, changed-Goes, FirstStep, migrate-FirstStep,
}
use go_ledger.Storage.Migrate.Upgrade.{Ran, Counts, up-Ran}

delete_absent :
    (v : ℤ) (rows : List Applied) → applied_checksum v rows ≡ none → delete_version v rows ≡ rows
unfolding applied_checksum delete_version
delete_absent v [] free = refl
delete_absent v (r ∷ rows) free = elim (Bool-cases (eqb_ℤ r.version v)) [
  | inl same ↦ let bad : some r.checksum ≡ none = rw same at free in cc (bad)
  | inr other ↦ rw other (ap (λ rows. r ∷ rows) (delete_absent v rows (rw other at free)))
]

module _ {S : Type 0} (driver : Driver S) where
  -- the driver without its faults
  abbrev pub calm : Driver S
  calm = record driver { fault = λ _. none; commit_fault = λ _. none }

  -- The body down of a migration takes back what its body up has done.
  abbrev pub IsUndone : Migration → Type 0
  IsUndone m =
      (is_empty m.down ≡ false)
      × ((schema schema' : S)
          → driver.run_sql m.up schema ≡ ok schema'
          → driver.run_sql m.down schema' ≡ ok schema)

  apply_one_undone :
      (m : Migration) (s s' : State S)
      → Goes driver m s s'
      → IsUndone m
      → apply_one calm m false s' ≡ (ok tt, s)
  unfolding apply_one delete_version
  apply_one_undone m s s' goes undone =
      rw
        (
          goes.state,
          undone.1 s.schema goes.schema goes.ran,
          eqb_ℤ_refl m.version,
          delete_absent m.version s.rows goes.free,
        )
        refl

  -- one turn of the loop of Down
  down_loop_undo_first :
      (m : Migration) (more : List Migration) (applied : List Applied) (n count : ℕ)
      (s s' : State S)
      → Goes driver m s s'
      → IsUndone m
      → IsRecorded applied m
      → suc count ≤ n
      → down_loop calm (m ∷ more) applied n count s' ≡ down_loop calm more applied n (suc count) s
  unfolding down_loop
  down_loop_undo_first m more applied n count s s' goes undone recorded enough =
      let below : ltb count n ≡ true = ground arith in
      rw (down_loop, below, recorded, down_step, undone.0, apply_one_undone m s s' goes undone) refl

  -- the loop of Down over migrations that have gone up, before others
  down_loop-undoes :
      (ms more : List Migration) (applied : List Applied) (n count : ℕ) (s s' : State S)
      → migrate driver ms s ≡ ok s'
      → All IsUndone ms
      → All (IsRecorded applied) ms
      → count + length ms ≤ n
      → down_loop calm (reversed ms more) applied n count s'
        ≡ down_loop calm more applied n (count + length ms) s
  unfolding reversed migrate
  down_loop-undoes [] more applied n count s s' went undone recorded enough =
      let same : s ≡ s' = ok-injective went in
      rw same (ap (λ k. down_loop calm more applied n k s') (omega arith))
  down_loop-undoes (m ∷ ms) more applied n count s s' went undone recorded enough =
      let f : FirstStep driver m ms s s' = migrate-FirstStep driver m ms s s' went in
      down_loop-undoes ms (m ∷ more) applied n count f.middle s' f.rest undone.1 recorded.1
        (omega arith)
      ∙ down_loop_undo_first m more applied n (count + length ms) s f.middle
          (changed-Goes driver m s f.middle f.first) undone.0 recorded.0 (omega arith)
      ∙ ap (λ k. down_loop calm more applied n k s) (omega arith)

  reversed-append :
      (older newer more : List Migration)
      → reversed (older ++ newer) more ≡ reversed newer (reversed older more)
  unfolding reversed
  reversed-append [] newer more = refl
  reversed-append (m ∷ older) newer more = reversed-append older newer (m ∷ more)

  All-right :
      (P : Migration → Type 0) (older newer : List Migration) → All P (older ++ newer) → All P newer
  All-right P [] newer all = all
  All-right P (m ∷ older) newer all = All-right P older newer all.1

  -- a loop that has done what it was asked for
  down_loop-done :
      (ms : List Migration) (applied : List Applied) (n : ℕ) (s : State S)
      → down_loop calm ms applied n n s ≡ ended n none s
  unfolding down_loop
  down_loop-done [] applied n s = refl
  down_loop-done (m ∷ ms) applied n s =
      let full : ltb n n ≡ false = ground arith in rw (down_loop, full) refl

  -- what Up has done if it ends without an error
  record Done (older newer : List Migration) (s : State S) (p : Outcome × State S) : Type 0 where
    count : p.0.count ≡ length newer
    migrated : migrate driver newer s ≡ ok p.1
    all : All (IsRecorded p.1.rows) newer

  Ran-Done :
      (older newer : List Migration) (s : State S) (p : Outcome × State S) (error : Option Error)
      → (r : Ran driver (older ++ newer) newer 0 s p) → p.0.error ≡ error
      → error ≡ none
      → Counts driver (older ++ newer) r.rest p.1 (length r.done) 0 p.0.count error
      → Done older newer s p
  Ran-Done older newer s p (some e) r is fine counts = cc (fine)
  Ran-Done older newer s p none r is fine counts =
      let same : newer ≡ r.done =
        r.split ∙ ap (λ rest. r.done ++ rest) counts.0 ∙ append-nil r.done in
      record {
        count = rw same (omega (arith, counts.1));
        migrated = rw same r.migrated;
        all = All-right (IsRecorded p.1.rows) older newer counts.2;
      }

  down-undoes :
      (hex_sha256 : Bytes → Bytes) (files : Files) (s s' : State S) (older newer : List Migration)
      → load_migrations hex_sha256 files ≡ ok (older ++ newer)
      → migrate driver newer s ≡ ok s'
      → All IsUndone newer
      → All (IsRecorded s'.rows) newer
      → down calm hex_sha256 files (length newer) s' ≡ ended (length newer) none s
  unfolding down
  down-undoes hex_sha256 files s s' older newer loaded went undone recorded =
      rw (loaded, reversed-append older newer [])
        (down_loop-undoes newer (reversed older []) s'.rows (length newer) 0 s s' went undone
            recorded (omega arith)
          ∙ ap (λ k. down_loop calm (reversed older []) s'.rows (length newer) k s) (omega arith)
          ∙ down_loop-done (reversed older []) s'.rows (length newer) s)

  -- Down takes back what Up has done. If the pending migrations are the newest, the body down of
  -- each is there and takes back its body up, and Up has ended without an error, then Down by the
  -- number that Up has returned, over a driver that works, ends without an error and the same
  -- number, and the schema and the rows are those before Up.
  pub down-up :
      (hex_sha256 : Bytes → Bytes) (files : Files) (s : State S) (older newer : List Migration)
      → load_migrations hex_sha256 files ≡ ok (older ++ newer)
      → pending (older ++ newer) s.rows ≡ newer
      → All IsUndone newer
      → (up driver hex_sha256 files s).0.error ≡ none
      → down calm hex_sha256 files
          (up driver hex_sha256 files s).0.count
          (up driver hex_sha256 files s).1
        ≡ ended (length newer) none s
  down-up hex_sha256 files s older newer loaded are_newest undone fine =
      let p : Outcome × State S = up driver hex_sha256 files s in
      let ran : Ran driver (older ++ newer) newer 0 s p =
        subst (λ todo. Ran driver (older ++ newer) todo 0 s p) are_newest
          (up-Ran driver hex_sha256 files s (older ++ newer) loaded) in
      let d : Done older newer s p = Ran-Done older newer s p p.0.error ran refl fine ran.counts in
      rw d.count (down-undoes hex_sha256 files s p.1 older newer loaded d.migrated undone d.all)
