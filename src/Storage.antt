-- ===== src/Storage.antt =====
-- internal/storage/postgres: the schema of the migrations, and the statements and methods that
-- the Go code runs against it.
pub mod Database
pub mod Session
pub mod Text
pub mod Statements
pub mod Transfer
pub mod Accounts
pub mod Keys
pub mod Outbox
pub mod Migrate
pub mod Invariant
