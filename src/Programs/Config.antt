-- ===== src/Programs/Config.antt =====
-- internal/config/config.go. The environment and time.ParseDuration are parameters; durations are in
-- nanoseconds.
use go_ledger.Base.{
  ℕ, ◌*◌, ℤ, pos, ◌≡◌, refl, ◌⊎◌, inl, inr, String, true, false, Bool-cases, if◌then◌else◌,
}
use text.Mathlib.Text.{◌==◌ as str_eq}
use go_ledger.Domain.Errors.{Error, opaque, wrap, Result, ok, err}

abbrev pub second : ℕ
second = 1_000_000_000

pub record Config : Type 0 where
  pub database_url : String
  pub http_addr : String
  pub log_level : String
  pub shutdown_timeout : ℤ

-- os.Getenv, which returns the empty string for a variable that is not set
abbrev pub Environment : Type 0
Environment = String → String

-- envOr
abbrev pub env_or : Environment → String → String → String
env_or getenv key fallback = if str_eq (getenv key) "" then fallback else getenv key

abbrev pub default_shutdown_timeout : ℤ
default_shutdown_timeout = pos (15 * second)

module _ (getenv : Environment) (parse_duration : String → Result ℤ) where
  abbrev pub in_timeout : Result ℤ → Result ℤ
  in_timeout (ok d) = ok d
  in_timeout (err e) = err (wrap "SHUTDOWN_TIMEOUT" e)

  abbrev pub shutdown_timeout : Result ℤ
  shutdown_timeout =
      if str_eq (getenv "SHUTDOWN_TIMEOUT") ""
      then ok default_shutdown_timeout
      else in_timeout (parse_duration (getenv "SHUTDOWN_TIMEOUT"))

  abbrev pub with_timeout : Result ℤ → Result Config
  with_timeout (err e) = err e
  with_timeout (ok d) =
      if str_eq (getenv "DATABASE_URL") ""
      then err (opaque "DATABASE_URL is required")
      else ok (record {
        database_url = getenv "DATABASE_URL";
        http_addr = env_or getenv "HTTP_ADDR" ":8080";
        log_level = env_or getenv "LOG_LEVEL" "info";
        shutdown_timeout = d;
      })

  -- Load
  unfoldable pub load : Result Config
  load = with_timeout shutdown_timeout

  env_or-set :
      (key fallback : String)
      → str_eq fallback "" ≡ false
      → str_eq (env_or getenv key fallback) "" ≡ false
  env_or-set key fallback set = elim (Bool-cases (str_eq (getenv key) "")) [
    | inl empty ↦ rw empty set
    | inr given ↦ rw given given
  ]

  -- What Load returns. A configuration has no empty text, and its timeout is the default or what
  -- SHUTDOWN_TIMEOUT says; an error is for a variable that is required, or that does not parse.
  abbrev pub Loaded : Result Config → Type 0
  Loaded (ok c) =
      (c.database_url ≡ getenv "DATABASE_URL")
      × (str_eq c.database_url "" ≡ false)
      × (str_eq c.http_addr "" ≡ false)
      × (str_eq c.log_level "" ≡ false)
      × (((str_eq (getenv "SHUTDOWN_TIMEOUT") "" ≡ true)
            × (c.shutdown_timeout ≡ default_shutdown_timeout))
          ⊎ (parse_duration (getenv "SHUTDOWN_TIMEOUT") ≡ ok c.shutdown_timeout))
  Loaded (err e) =
      (str_eq (getenv "DATABASE_URL") "" ≡ true)
      ⊎ ((str_eq (getenv "SHUTDOWN_TIMEOUT") "" ≡ false)
          × (x : Error) × (parse_duration (getenv "SHUTDOWN_TIMEOUT") ≡ err x))

  with_timeout-Loaded :
      (d : ℤ)
      → ((str_eq (getenv "SHUTDOWN_TIMEOUT") "" ≡ true) × (d ≡ default_shutdown_timeout))
        ⊎ (parse_duration (getenv "SHUTDOWN_TIMEOUT") ≡ ok d)
      → Loaded (with_timeout (ok d))
  with_timeout-Loaded d why = elim (Bool-cases (str_eq (getenv "DATABASE_URL") "")) [
    | inl empty ↦ rw empty (inl empty)
    | inr given ↦
        rw given (
          refl,
          given,
          env_or-set "HTTP_ADDR" ":8080" refl,
          env_or-set "LOG_LEVEL" "info" refl,
          why,
        )
  ]

  -- Load fails exactly for a missing DATABASE_URL or a SHUTDOWN_TIMEOUT that does not parse;
  -- otherwise its configuration has no empty text, the database URL is the given one, and the
  -- timeout is the given one or 15 seconds.
  pub load-Loaded : Loaded load
  unfolding load
  load-Loaded = elim (Bool-cases (str_eq (getenv "SHUTDOWN_TIMEOUT") "")) [
    | inl empty ↦ rw empty (with_timeout-Loaded default_shutdown_timeout (inl (empty, refl)))
    | inr given ↦ rw given (parsed (parse_duration (getenv "SHUTDOWN_TIMEOUT")) refl given)
  ]
    where
      parsed :
          (r : Result ℤ)
          → parse_duration (getenv "SHUTDOWN_TIMEOUT") ≡ r
          → str_eq (getenv "SHUTDOWN_TIMEOUT") "" ≡ false
          → Loaded (with_timeout (in_timeout r))
      parsed (ok d) is given = with_timeout-Loaded d (inr is)
      parsed (err e) is given = inr (given, e, is)
