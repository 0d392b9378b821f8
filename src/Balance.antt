-- ===== src/Balance.antt =====
-- provider/balance_checker.go: the escrow balance behind each lease, and the withdrawals from it.
pub mod Check
pub mod Checker
pub mod Pending
pub mod Due
pub mod Intime
pub mod Withdrawn
mod Tests
