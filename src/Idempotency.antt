-- ===== src/Idempotency.antt =====
-- What `Execute` (internal/application/process_wager_transaction.go) leaves in the table of transactions, so
-- that the same operation sent again is answered from it.
pub mod Rows
pub mod Fresh
pub mod Outcome
pub mod Reference
pub mod Kinds
pub mod Execute
pub mod Again
