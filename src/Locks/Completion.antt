-- ===== src/Locks/Completion.antt =====
-- Transfers, replays and relays' batches that run at once can all be carried through.
use go_ledger.Base.{ℕ, suc, ◌+◌, ◌≡◌, ◌≤◌, false, List, [], ◌∷◌, length}
use go_ledger.Locks.{Process, running, polling, ended, Advances, OneOf}
use go_ledger.Locks.Progress.{any_running}

-- the steps that a process has still to make when it does not end early
abbrev pub work : Process → ℕ
work (running held wanted) = suc (length wanted)
work polling = 2
work ended = 0

unfoldable pub total_work : List Process → ℕ
total_work [] = 0
total_work (p ∷ ps) = work p + total_work ps

-- So many steps of processes that go ahead, one after another. None of them ends a process early.
pub data Proceeds : ℕ → List Process → List Process → Type 0 where
  halts : {ps : List Process} → Proceeds 0 ps ps
  moves :
      {n : ℕ} {ps ps' ps'' : List Process}
      → OneOf Advances [] ps ps'
      → Proceeds n ps' ps''
      → Proceeds (suc n) ps ps''

-- A way ahead on which every call gets all its locks and commits.
pub record Completes (ps : List Process) : Type 0 where
  pub steps : ℕ
  pub last : List Process
  pub ahead : Proceeds steps ps last
  pub few : steps ≤ total_work ps
  pub over : any_running last ≡ false
