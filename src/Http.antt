-- ===== src/Http.antt =====
-- internal/httpapi: the handlers, and how errors become responses.
pub mod Problem
pub mod Errors
pub mod Wire
pub mod Handler
pub mod Accounts
pub mod Transactions
pub mod Events
pub mod Router
pub mod Server
