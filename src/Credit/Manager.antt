-- ===== src/Credit/Manager.antt =====
-- The server half of core/credit.go: CreditManager and SettleGrant. A grant's pointer to its manager
-- is the manager argument; what a `send` function is handed is the list of results that an operation
-- returns, in order. Every operation runs under the manager's lock, so each is one step.
mod State
mod Admission
mod Settling
unfoldable pub use State.*
unfoldable pub use Admission.*
unfoldable pub use Settling.*
