-- ===== src/Standings.antt =====
-- The table of a Nations League group (src/markets/unl-standings.util.ts).
--
-- The keys of teams are numbers in the order in which `localeCompare` puts the texts. `sort` is
-- stable, as the language defines it, and written as an insertion sort. A score that is no number
-- is absent.
mod Tally
mod Order
pub mod Counting
pub mod Sorting
pub mod Enough
pub mod Ranking
unfoldable pub use Tally.*
unfoldable pub use Order.*
