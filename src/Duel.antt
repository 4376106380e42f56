-- ===== src/Duel.antt =====
-- Duels: one-against-one wagers beside a market (src/challenges/challenges.service.ts,
-- src/entities/challenge.entity.ts), with the hourly expiry of src/jobs/engagement.job.ts.
--
-- A service method is an action on the store of the tables that it reads and writes. What runs
-- under `dataSource.transaction` is rolled back when it raises; what does not stays written.
-- Telegram messages, SSE events, cache drops and log lines are left out, as is the case of a
-- failing database. Wagers are natural numbers once `create` has refused a negative one; instants
-- are milliseconds.
mod Tables
mod Wager
mod Cards
mod Create
mod Void
mod Settle
mod Expiry
pub mod Money
pub mod Conservation
pub mod Round
pub mod Settlement
pub mod Closing
pub mod Repeat
pub mod Joining
pub mod Opening
pub mod Milestones
pub mod Expired
pub mod Upkeep
pub mod History
pub use Tables.*
unfoldable pub use Wager.*
unfoldable pub use Cards.*
unfoldable pub use Create.*
unfoldable pub use Void.*
unfoldable pub use Settle.*
unfoldable pub use Expiry.*
