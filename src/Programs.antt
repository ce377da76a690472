-- ===== src/Programs.antt =====
-- The programs of cmd: configuration (internal/config/config.go), the connection pool
-- (internal/storage/postgres/db.go), and what each program does with them.
pub mod Config
pub mod Pool
pub mod Api
pub mod Relay
pub mod Order
pub mod Migrate
