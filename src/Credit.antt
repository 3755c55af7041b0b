-- ===== src/Credit.antt =====
-- core/credit.go: the client's ledger, the server's manager and the grants it gives out.
pub mod Ledger
pub mod Manager
pub mod Prefix
pub mod Dedup
pub mod Interleaving
pub mod Conservation
pub mod Drift
pub mod Balance
