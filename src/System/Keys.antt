-- ===== src/System/Keys.antt =====
-- A key that has been answered keeps its row whatever the system does afterwards.
use go_ledger.Base.{◌≡◌, some, List, Bytes, String}
use go_ledger.Storage.Database.{KeyRow, find_key}
use go_ledger.Storage.Session.{Session}
use go_ledger.Storage.Transfer.Retry.{Posted-find_key}
use go_ledger.System.{Call, perform_all, IsSound}
use go_ledger.System.Cases.{perform_all_cases}

pub perform_all-find_key :
    (k : Bytes) (e : String) (row : KeyRow) (s : Session) (calls : List Call)
    → IsSound s.store
    → find_key k e s.store.idempotency_keys ≡ some row
    → find_key k e (perform_all s calls).store.idempotency_keys ≡ some row
perform_all-find_key k e row =
    perform_all_cases (λ db. find_key k e db.idempotency_keys ≡ some row)
      (λ env a db zero_balance fresh found. found)
      (λ env cmd claim render s status body after sound differ posting found.
        Posted-find_key k e row env cmd claim render s status body after found posting)
      (λ db db' same found. rw same.3 found)
