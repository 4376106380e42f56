-- ===== src/Payout.antt =====
-- What the winners of a market are paid (src/markets/winner-payouts.ts).
--
-- Stakes need not be round: amounts are counted in parts of the last decimal place of their
-- currency, `unit` of which make one, and the pool net of the house edge is a fraction of such
-- parts. The source computes with double-precision numbers and rounds each amount by `toFixed`; the
-- definitions take the rounding of an exact quotient as an argument, of which the proofs use that it
-- gives whole last decimal places and is within half of one. `half_up_to` is the rounding of exact
-- numbers, where a tie goes up.
mod Nearest
mod Winners
pub mod Bounds
pub use Nearest.*
unfoldable pub use Winners.*
