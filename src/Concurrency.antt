-- ===== src/Concurrency.antt =====
-- src/concurrency: the transactions.
pub mod Transactions
