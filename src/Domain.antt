-- ===== src/Domain.antt =====
-- internal/ledger: the double-entry domain, without the service (module Service).
pub mod Errors
pub mod Money
pub mod Account
pub mod Transaction
pub mod Idempotency
