-- ===== src/Http/Problem.antt =====
-- internal/httpapi/problem/problem.go. The encoder and the log are not modelled: a response is the
-- body that Write encodes, and its status is also the status of the response.
use go_ledger.Base.{ℕ, String}

pub record Problem : Type 0 where
  pub type : String
  pub title : String
  pub status : ℕ
  pub detail : String

-- Write
unfoldable pub write : ℕ → String → String → String → Problem
write status type title detail = record {
  type = type;
  title = title;
  status = status;
  detail = detail;
}

-- Internal
unfoldable pub internal : Problem
unfolding write
internal = write 500 "internal_error" "Internal Server Error" ""
