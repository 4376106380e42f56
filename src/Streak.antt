-- ===== src/Streak.antt =====
-- The daily bet streak (src/users/streak.service.ts).
--
-- A UTC date `YYYY-MM-DD` is the number of its day, so yesterday is the day before. The row is
-- read and written under its lock; `today` is the clock's day, read once for a call.
mod Update
pub mod Days
pub mod Snapshot
unfoldable pub use Update.*
