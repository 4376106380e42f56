-- ===== src/Market.antt =====
-- The life of a market in the engine (src/markets/parimutuel.engine.ts): status changes, the gate
-- of the resolution, and the cancellation.
--
-- The bets, bonds and duels of one market stand beside the ledger that they share. Row locks,
-- caches, notifications, log lines and failures of the database are left out.
mod State
mod Lifecycle
mod Cancel
pub mod Statuses
pub mod Refunds
pub mod Cancelled
pub mod Emptied
pub mod Repeat
pub use State.*
unfoldable pub use Lifecycle.*
unfoldable pub use Cancel.*
