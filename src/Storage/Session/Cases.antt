-- ===== src/Storage/Session/Cases.antt =====
-- Case rules for the actions of a session: a predicate on the outcome holds if it holds of each way
-- in which the action can end.
use go_ledger.Base.{◌≡◌, refl, String, Bool, true, false, Option, none, some}
use go_ledger.Domain.Errors.{Error, opaque, Result, ok, err}
use go_ledger.Storage.Database.{Database}
use go_ledger.Storage.Session.{Site, Env, Session, finish, raise_if, deref, exec}

module _ {A : Type 0} (Q : Result A × Session → Type 0) where
  pub lift_cases :
      (r : Result A) (s : Session)
      → ((e : Error) → r ≡ err e → Q (err e, s))
      → ((a : A) → r ≡ ok a → Q (ok a, s))
      → Q (r, s)
  lift_cases (ok a) s failed done = done a refl
  lift_cases (err e) s failed done = failed e refl

  finish_cases :
      (fault : Option String) (r : Result (A × Database)) (s : Session)
      → ((e : Error) → Q (err e, s))
      → ((a : A) (db : Database) → r ≡ ok (a, db) → Q (ok a, record s { tx = db }))
      → Q (finish fault r s)
  finish_cases none (ok (a, db)) s failed done = done a db refl
  finish_cases none (err e) s failed done = failed e
  finish_cases (some m) r s failed done = failed (opaque m)

  pub exec_cases :
      (env : Env) (site : Site) (statement : Database → Result (A × Database)) (s : Session)
      → ((e : Error) → Q (err e, s))
      → ((a : A) (db : Database) → statement s.tx ≡ ok (a, db) → Q (ok a, record s { tx = db }))
      → Q (exec env site statement s)
  unfolding exec
  exec_cases env site statement s = finish_cases (env.fault site) (statement s.tx) s

  pub deref_cases :
      (o : Option A) (s : Session)
      → ((e : Error) → Q (err e, s))
      → ((a : A) → o ≡ some a → Q (ok a, s))
      → Q (deref o s)
  deref_cases none s failed done = failed _
  deref_cases (some a) s failed done = done a refl

pub raise_if_cases :
    (Q : Result (Unit {0}) × Session → Type 0) (b : Bool) (e : Error) (s : Session)
    → (b ≡ true → Q (err e, s))
    → (b ≡ false → Q (ok tt, s))
    → Q (raise_if b e s)
raise_if_cases Q true e s failed done = failed refl
raise_if_cases Q false e s failed done = done refl
