-- ===== src/Storage/Migrate/Reference.antt =====
-- A reference for Up, which runs migrations in order, and what one transaction of applyOne does.
use go_ledger.Base.{
  ℤ, eqb_ℤ, eqb_ℤ-sound, eqb_ℤ_refl, ◌≡◌, refl, sym, subst, Bool, true, Option, none, some, is_some,
  String, List, [], ◌∷◌, Bytes, Bool-cases, ◌⊎◌, inl, inr, if◌then◌else◌,
}
use go_ledger.Domain.Errors.{Result, ok, err, ok-injective}
use go_ledger.Storage.Session.{CommitFault, refused, ack_lost, contextualise}
use go_ledger.Storage.Migrate.Load.{Migration}
use go_ledger.Storage.Migrate.{
  Applied, State, begins, runs, records, Driver, applied_checksum, row_of, recorded, body_of,
  called, attempt, committed, commit_stage, record_stage, run_stage, apply_one, up,
}

-- the migrations that have not been applied, in order
unfoldable pub pending : List Migration → List Applied → List Migration
pending [] rows = []
pending (m ∷ ms) rows =
    let rest = pending ms rows in
    if is_some (applied_checksum m.version rows) then rest else m ∷ rest

abbrev pub then_do : {A B : Type 0} → Result A → (A → Result B) → Result B
then_do (ok a) f = f a
then_do (err e) f = err e

abbrev pub IsRecorded : List Applied → Migration → Type 0
IsRecorded rows m = applied_checksum m.version rows ≡ some m.checksum

-- the rows of `rows` are in `rows'`, as far as a lookup sees them
abbrev pub IsKept : List Applied → List Applied → Type 0
IsKept rows rows' =
    (v : ℤ) (sum : Bytes) → applied_checksum v rows ≡ some sum → applied_checksum v rows' ≡ some sum

row-IsRecorded :
    (m : Migration) (rows : List Applied)
    → applied_checksum m.version rows ≡ none
    → IsRecorded (row_of m ∷ rows) m × IsKept rows (row_of m ∷ rows)
unfolding applied_checksum
row-IsRecorded m rows free = (rw (eqb_ℤ_refl m.version) refl, kept)
  where
    kept : IsKept rows (row_of m ∷ rows)
    kept v sum found = elim (Bool-cases (eqb_ℤ m.version v)) [
      | inl same ↦
          let free_v : applied_checksum v rows ≡ none =
            subst (λ w. applied_checksum w rows ≡ none) (eqb_ℤ-sound m.version v same) free in
          cc (free_v, found)
      | inr other ↦ rw other found
    ]

module _ {S : Type 0} (driver : Driver S) where
  -- what one migration does to a state
  abbrev pub changed : Migration → Bool → State S → Result (State S)
  changed m up s =
      then_do (driver.run_sql (body_of up m) s.schema) λ schema.
        then_do (recorded up m s.rows) λ rows. ok (record { schema = schema; rows = rows })

  -- the reference
  unfoldable pub migrate : List Migration → State S → Result (State S)
  unfolding applied_checksum
  migrate [] s = ok s
  migrate (m ∷ ms) s = then_do (changed m true s) (migrate ms)

  -- One transaction is whole or nothing: on an error the state is as before, or the acknowledgement
  -- of the COMMIT was lost.
  abbrev pub Changes : Migration → Bool → State S → Result (Unit {0}) → State S → Type 0
  Changes m up s (ok _) s' = changed m up s ≡ ok s'
  Changes m up s (err e) s' =
      (s' ≡ s)
      ⊎ ((message : String) × (driver.commit_fault m.version ≡ some (ack_lost message))
          × (changed m up s ≡ ok s'))

  committed-Changes :
      (m : Migration) (up : Bool) (s s' : State S) (fault : Option CommitFault)
      → driver.commit_fault m.version ≡ fault
      → changed m up s ≡ ok s'
      → Changes m up s (committed fault s' s).0 (committed fault s' s).1
  committed-Changes m up s s' none same is = is
  committed-Changes m up s s' (some (refused message)) same is = inl refl
  committed-Changes m up s s' (some (ack_lost message)) same is = inr (message, same, is)

  attempt-Changes :
      {A : Type 0} (m : Migration) (up : Bool) (s : State S) (context : String)
      (fault : Option String) (r : Result A) (next : A → Result (Unit {0}) × State S)
      → ((a : A) → r ≡ ok a → Changes m up s (next a).0 (next a).1)
      → Changes m up s
          (attempt (contextualise context (called fault r)) s next).0
          (attempt (contextualise context (called fault r)) s next).1
  attempt-Changes m up s context none (ok a) next next_is = next_is a refl
  attempt-Changes m up s context none (err e) next next_is = inl refl
  attempt-Changes m up s context (some message) r next next_is = inl refl

  pub apply_one-Changes :
      (m : Migration) (up : Bool) (s : State S)
      → Changes m up s (apply_one driver m up s).0 (apply_one driver m up s).1
  unfolding apply_one
  apply_one-Changes m up s =
      attempt-Changes m up s "begin migration" (driver.fault (begins m.version)) (ok tt)
        (run_stage driver m up s)
        λ _ _.
          attempt-Changes m up s "migration" (driver.fault (runs m.version))
            (driver.run_sql (body_of up m) s.schema) (record_stage driver m up s)
            λ schema ran.
              attempt-Changes m up s "record migration" (driver.fault (records m.version))
                (recorded up m s.rows) (commit_stage driver m schema s)
                λ rows kept.
                  committed-Changes m up s (record { schema = schema; rows = rows })
                    (driver.commit_fault m.version) refl (rw (ran, kept) refl)

  -- what a migration up does: its version was free, and it has the newest row
  pub record Goes (m : Migration) (s s' : State S) : Type 0 where
    pub schema : S
    pub ran : driver.run_sql m.up s.schema ≡ ok schema
    pub free : applied_checksum m.version s.rows ≡ none
    pub state : s' ≡ record { schema = schema; rows = row_of m ∷ s.rows }

  changed_cases :
      (m : Migration) (s s' : State S) (ran : Result S) (found : Option Bytes)
      → driver.run_sql m.up s.schema ≡ ran
      → applied_checksum m.version s.rows ≡ found
      → changed m true s ≡ ok s'
      → Goes m s s'
  changed_cases m s s' (err e) found does looks is =
      let bad : err e ≡ ok s' = rw does at is in cc (bad)
  changed_cases m s s' (ok schema) (some sum) does looks is =
      let bad : err _ ≡ ok s' = rw (does, looks) at is in cc (bad)
  changed_cases m s s' (ok schema) none does looks is = record {
    schema = schema;
    ran = does;
    free = looks;
    state = sym (ok-injective (rw (does, looks) at is));
  }

  pub changed-Goes : (m : Migration) (s s' : State S) → changed m true s ≡ ok s' → Goes m s s'
  changed-Goes m s s' = changed_cases m s s' _ _ refl refl

  -- what one migration up records
  pub changed-IsRecorded :
      (m : Migration) (s s' : State S)
      → changed m true s ≡ ok s'
      → IsRecorded s'.rows m × IsKept s.rows s'.rows
  changed-IsRecorded m s s' is =
      let g : Goes m s s' = changed-Goes m s s' is in rw g.state (row-IsRecorded m s.rows g.free)

  -- the first step of the reference
  pub record FirstStep (m : Migration) (ms : List Migration) (s s' : State S) : Type 0 where
    pub middle : State S
    pub first : changed m true s ≡ ok middle
    pub rest : migrate ms middle ≡ ok s'

  then_do-FirstStep :
      (m : Migration) (ms : List Migration) (s s' : State S) (r : Result (State S))
      → changed m true s ≡ r
      → then_do r (migrate ms) ≡ ok s'
      → FirstStep m ms s s'
  then_do-FirstStep m ms s s' (ok middle) is rest = record {
    middle = middle;
    first = is;
    rest = rest;
  }
  then_do-FirstStep m ms s s' (err e) is rest = cc (rest)

  pub migrate-FirstStep :
      (m : Migration) (ms : List Migration) (s s' : State S)
      → migrate (m ∷ ms) s ≡ ok s'
      → FirstStep m ms s s'
  unfolding migrate
  migrate-FirstStep m ms s s' = then_do-FirstStep m ms s s' (changed m true s) refl

  pub migrate-IsKept :
      (ms : List Migration) (s s' : State S) → migrate ms s ≡ ok s' → IsKept s.rows s'.rows
  unfolding migrate
  migrate-IsKept [] s s' is v sum found =
      subst (λ (x : State S). applied_checksum v x.rows ≡ some sum) (ok-injective is) found
  migrate-IsKept (m ∷ ms) s s' is v sum found =
      let f : FirstStep m ms s s' = migrate-FirstStep m ms s s' is in
      migrate-IsKept ms f.middle s' f.rest v sum
        ((changed-IsRecorded m s f.middle f.first).1 v sum found)
