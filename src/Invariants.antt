-- ===== src/Invariants.antt =====
-- Invariants of the database under the use cases of internal/application on the repositories of
-- internal/infra/postgres.
pub mod Triple
pub mod Stable
pub mod Reads
pub mod Dispatch
pub mod Submit
pub mod Open
pub mod Schedule
pub mod Posting
pub mod Balance
pub mod Books
pub mod Due
pub mod Attempts
pub mod Opening
pub mod Gives
pub mod Tables
pub mod Effect
pub mod Answer
pub mod Money
pub mod History
