-- ===== src/Storage/Migrate/Upgrade.antt =====
-- Up against the reference.
use go_ledger.Base.{
  ℕ, suc, ◌+◌, ◌≤◌, ◌≡◌, refl, sym, ap, ◌∙◌, subst, true, Option, none, some, is_some, String, List,
  [], ◌∷◌, ◌++◌, Bytes, length, bytes_equal, bytes_equal_sound, All, Bool-cases, inl, inr,
  if◌then◌else◌, arith,
}
use go_ledger.Domain.Errors.{Error, Result, ok, err, ok-injective}
use go_ledger.Storage.Session.{contextualise}
use go_ledger.Storage.Migrate.Load.{Files, Migration, load_migrations}
use go_ledger.Storage.Migrate.{
  Applied, State, ensure, read, Driver, applied_checksum, called, Outcome, ended, counted,
  apply_one, up_step, up_loop, ready, locked, up,
}
use go_ledger.Storage.Migrate.Reference.{
  pending, IsRecorded, IsKept, changed, migrate, Changes, apply_one-Changes, changed-IsRecorded,
  migrate-IsKept,
}

module _ {S : Type 0} (driver : Driver S) where
  -- How many migrations an outcome counts: all that ran, or, if an acknowledgement was lost, all but
  -- the last.
  abbrev pub Counts : List Migration → List Migration → State S → ℕ → ℕ → ℕ → Option Error → Type 0
  Counts ms rest s' ran count given none =
      (rest ≡ []) × (given ≡ count + ran) × All (IsRecorded s'.rows) ms
  Counts ms rest s' ran count given (some e) = (given ≤ count + ran) × (count + ran ≤ given + 1)

  -- how the loop of Up ends: after some of the pending migrations, in order
  pub record Ran (ms todo : List Migration) (count : ℕ) (s : State S) (p : Outcome × State S)
      : Type 0 where
    pub done : List Migration
    pub rest : List Migration
    pub split : todo ≡ done ++ rest
    pub migrated : migrate driver done s ≡ ok p.1
    pub counts : Counts ms rest p.1 (length done) count p.0.count p.0.error

  -- the loop after one migration that went up
  counted-Ran :
      (m : Migration) (ms todo : List Migration) (count : ℕ) (s : State S) (r : Result (Unit {0}))
      (s' : State S) (again : ℕ → State S → Outcome × State S)
      → Changes driver m true s r s'
      → ((s'' : State S)
          → changed driver m true s ≡ ok s''
          → Ran ms todo (suc count) s'' (again (suc count) s''))
      → Ran (m ∷ ms) (m ∷ todo) count s (counted (r, s') count again)
  unfolding migrate
  counted-Ran m ms todo count s (err e) s' again (inl same) next = record {
    done = [];
    rest = m ∷ todo;
    split = refl;
    migrated = ap ok (sym same);
    counts = (omega arith, omega arith);
  }
  counted-Ran m ms todo count s (err e) s' again (inr (message, lost, went)) next = record {
    done = m ∷ [];
    rest = todo;
    split = refl;
    migrated = rw went refl;
    counts = (omega arith, omega arith);
  }
  counted-Ran m ms todo count s (ok _) s' again went next =
      let ran : Ran ms todo (suc count) s' (again (suc count) s') = next s' went in
      record {
        done = m ∷ ran.done;
        rest = ran.rest;
        split = ap (λ ms. m ∷ ms) ran.split;
        migrated = rw went ran.migrated;
        counts =
            one_more ran.rest (again (suc count) s').1 (length ran.done) _ _
              (migrate-IsKept driver ran.done s' (again (suc count) s').1 ran.migrated m.version
                m.checksum ((changed-IsRecorded driver m s s' went).0))
              ran.counts;
      }
    where
      one_more :
          (rest : List Migration) (end : State S) (ran given : ℕ) (error : Option Error)
          → IsRecorded end.rows m
          → Counts ms rest end ran (suc count) given error
          → Counts (m ∷ ms) rest end (suc ran) count given error
      one_more rest end ran given none here counts =
          (counts.0, omega (arith, counts.1), (here, counts.2))
      one_more rest end ran given (some e) here counts =
          (omega (arith, counts.0), omega (arith, counts.1))

  -- the loop after a migration that is there already
  skipped-Ran :
      (m : Migration) (ms todo : List Migration) (count : ℕ) (s : State S) (p : Outcome × State S)
      → IsRecorded s.rows m
      → Ran ms todo count s p
      → Ran (m ∷ ms) todo count s p
  skipped-Ran m ms todo count s p here ran = record {
    done = ran.done;
    rest = ran.rest;
    split = ran.split;
    migrated = ran.migrated;
    counts =
        and_here p.0.error
          (migrate-IsKept driver ran.done s p.1 ran.migrated m.version m.checksum here) ran.counts;
  }
    where
      and_here :
          (error : Option Error)
          → IsRecorded p.1.rows m
          → Counts ms ran.rest p.1 (length ran.done) count p.0.count error
          → Counts (m ∷ ms) ran.rest p.1 (length ran.done) count p.0.count error
      and_here none here counts = (counts.0, counts.1, (here, counts.2))
      and_here (some e) here counts = counts

  -- an error before anything has been done
  stopped-Ran :
      (ms todo : List Migration) (count : ℕ) (s : State S) (e : Error)
      → Ran ms todo count s (ended count (some e) s)
  unfolding migrate
  stopped-Ran ms todo count s e = record {
    done = [];
    rest = todo;
    split = refl;
    migrated = refl;
    counts = (omega arith, omega arith);
  }

  up_step-Ran :
      (m : Migration) (ms todo : List Migration) (found : Option Bytes) (count : ℕ) (s : State S)
      (again : ℕ → State S → Outcome × State S)
      → ((sum : Bytes) → found ≡ some sum → applied_checksum m.version s.rows ≡ some sum)
      → ((s' : State S)
          → changed driver m true s ≡ ok s'
          → Ran ms todo (suc count) s' (again (suc count) s'))
      → Ran ms todo count s (again count s)
      → Ran
          (m ∷ ms)
          (if is_some found then todo else m ∷ todo)
          count
          s
          (up_step driver m found count s again)
  up_step-Ran m ms todo none count s again there next skip =
      counted-Ran m ms todo count s (apply_one driver m true s).0 (apply_one driver m true s).1
        again (apply_one-Changes driver m true s) next
  up_step-Ran m ms todo (some sum) count s again there next skip =
      elim (Bool-cases (bytes_equal sum m.checksum)) [
        | inl same ↦
            rw (same, up_step)
              (skipped-Ran m ms todo count s (again count s)
                (there sum refl ∙ ap some (bytes_equal_sound sum m.checksum same)) skip)
        | inr differ ↦ rw (differ, up_step) (stopped-Ran (m ∷ ms) todo count s _)
      ]

  up_loop-Ran :
      (ms : List Migration) (applied : List Applied) (count : ℕ) (s : State S)
      → IsKept applied s.rows
      → Ran ms (pending ms applied) count s (up_loop driver ms applied count s)
  unfolding up_loop pending migrate
  up_loop-Ran [] applied count s kept = record {
    done = [];
    rest = [];
    split = refl;
    migrated = refl;
    counts = (refl, omega arith, tt);
  }
  up_loop-Ran (m ∷ ms) applied count s kept =
      up_step-Ran m ms (pending ms applied) (applied_checksum m.version applied) count s
        (up_loop driver ms applied) (kept m.version)
        (λ s' went.
          up_loop-Ran ms applied (suc count) s'
            λ v sum found. (changed-IsRecorded driver m s s' went).1 v sum (kept v sum found))
        (up_loop-Ran ms applied count s kept)

  ready-Ran :
      {A : Type 0} (ms todo : List Migration) (s : State S) (r : Result A)
      (rest : A → Outcome × State S)
      → ((a : A) → r ≡ ok a → Ran ms todo 0 s (rest a))
      → Ran ms todo 0 s (ready driver r s rest)
  ready-Ran ms todo s (err e) rest next = stopped-Ran ms todo 0 s e
  ready-Ran ms todo s (ok a) rest next = next a refl

  called-ok :
      {A : Type 0} (context : String) (fault : Option String) (a b : A)
      → contextualise context (called fault (ok a)) ≡ ok b
      → a ≡ b
  called-ok context none a b is = ok-injective is
  called-ok context (some message) a b is = cc (is)

  pub up-Ran :
      (hex_sha256 : Bytes → Bytes) (files : Files) (s : State S) (ms : List Migration)
      → load_migrations hex_sha256 files ≡ ok ms
      → Ran ms (pending ms s.rows) 0 s (up driver hex_sha256 files s)
  unfolding up
  up-Ran hex_sha256 files s ms loaded = rw loaded (
      ready-Ran ms (pending ms s.rows) s (locked driver) _ λ _ _.
        ready-Ran ms (pending ms s.rows) s
          (contextualise "ensure schema_migrations" (called (driver.fault ensure) (ok tt))) _
          λ _ _.
            ready-Ran ms (pending ms s.rows) s
              (contextualise "read schema_migrations" (called (driver.fault read) (ok s.rows))) _
              λ applied is.
                let same : s.rows ≡ applied =
                  called-ok "read schema_migrations" (driver.fault read) s.rows applied is in
                subst (λ rows. Ran ms (pending ms s.rows) 0 s (up_loop driver ms rows 0 s)) same
                  (up_loop-Ran ms s.rows 0 s (λ v sum found. found)))
