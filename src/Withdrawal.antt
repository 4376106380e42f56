-- ===== src/Withdrawal.antt =====
-- DK Bank withdrawals whose outcome was unknown, and how they are closed
-- (src/payment/dk-withdrawal.reconciler.ts, src/payment/dk-status.util.ts,
-- src/entities/payment.entity.ts).
--
-- The bank's status calls are a parameter (`Gateway`): the legacy one answers with a text, which
-- `classify_dk_status` reads, the new one with a verdict. `now` is the clock, read once for a call.
-- The redis cache, SSE events, row locks, log lines and display texts of messages are left out.
mod Tables
mod Status
mod Finalise
mod Reconcile
pub mod Closing
pub mod Manual
pub mod Sweep
pub mod Verdicts
pub use Tables.*
unfoldable pub use Status.*
unfoldable pub use Finalise.*
unfoldable pub use Reconcile.*
