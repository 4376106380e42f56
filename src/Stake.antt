-- ===== src/Stake.antt =====
-- Placing a position (src/markets/parimutuel.engine.ts, src/markets/market-book.util.ts,
-- src/shared/utils/wallet.util.ts).
--
-- The odds and the LMSR probabilities, which are double-precision figures for display and scoring,
-- are left out, as are the locks, the messages, the bet streak and the referral bonus that follow
-- the transaction. Amounts are counted in parts of the last decimal place of their currency,
-- since stakes are not rounded.
mod Wallet
mod Place
pub mod Pools
pub mod Placed
unfoldable pub use Wallet.*
unfoldable pub use Place.*
