-- ===== src/Crypto.antt =====
-- USDT withdrawals through 21 Pay (src/payment/crypto-withdrawal.service.ts,
-- src/entities/crypto-withdrawal.entity.ts).
--
-- The payment provider is a parameter (`Client`), asked by value: an answer, an HTTP status, or no
-- answer. Amounts are in base units, of which a USDT has a million. A ledger row is named by its
-- place in the ledger. Where the source first loads a row and later writes under a condition, the
-- loaded copy is an argument (`approve_loaded`, `reject_loaded`, `apply_loaded`), so that it can be
-- older than the store. Messages, events, reasons of a failure and log lines are left out.
mod Tables
mod Addresses
mod Request
mod Apply
mod Decide
mod Deliver
pub mod Money
mod Asking
pub mod Deciding
pub mod Deliveries
pub mod History
mod Columns
mod News
mod Decisions
mod Webhooks
pub mod Exclusive
pub mod Races
pub mod Once
pub use Tables.*
unfoldable pub use Addresses.*
unfoldable pub use Request.*
unfoldable pub use Apply.*
unfoldable pub use Decide.*
unfoldable pub use Deliver.*
