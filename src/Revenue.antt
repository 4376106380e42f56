-- ===== src/Revenue.antt =====
-- Platform fees and their transfers to the public account
-- (src/markets/revenue-distribution.service.ts, src/entities/revenue-distribution.entity.ts).
--
-- Amounts are in the last decimal place of the column `amount`, whatever the currency. The bank's
-- gateway is a parameter. Beside the table the store keeps the calls of the gateway that were made
-- and what came of them. The audited percentage of a row, log lines and the lock of the cron jobs
-- are left out. Rows stand in the order in which they were made.
mod Tables
mod Transfer
mod Resolve
pub mod Sums
pub mod Paid
pub mod History
pub mod Batches
pub use Tables.*
unfoldable pub use Transfer.*
unfoldable pub use Resolve.*
