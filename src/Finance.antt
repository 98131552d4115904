-- ===== src/Finance.antt =====
-- backend/src/finance: the double-entry journal, its reversals and the financial statements.
pub mod Accounts
pub mod Journal
pub mod Saved
pub mod Posting
pub mod Balance
pub mod Statements
pub mod Reports
pub mod Reversal
pub mod Once
