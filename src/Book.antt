-- ===== src/Book.antt =====
-- The settlement of a market's books: who is paid what out of each pool, and the contest of the
-- bonds (src/markets/parimutuel.engine.ts).
--
-- Amounts are counted in parts of the last decimal place of the currency of the book, to which the
-- source rounds what it pays and books; the rounding is an argument, as in Payout. The contest counts
-- in whole last decimal places, since bonds are rounded when they are placed.
mod Bets
unfoldable pub use Bets.*
mod Settle
unfoldable pub use Settle.*
mod Close
unfoldable pub use Close.*
unfoldable pub use Sides.*
mod Sides
mod Branches
pub mod Money
pub mod Ended
pub mod Once
pub mod Again
pub mod Running
pub mod Bonds
pub mod Passes
pub mod Pools
