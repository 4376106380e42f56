-- ===== src/Fixture.antt =====
-- Football results that a market may be settled on (src/markets/fixture-result.util.ts).
--
-- A record of the provider is what its fields hold when they are read: the status text, the
-- goals if they are numbers, the verdict if it is one of the three, the instants that parse. Goals
-- are natural numbers, instants are milliseconds. The texts of the reasons are data.
mod Result
mod Stability
pub mod Payable
pub mod Settling
unfoldable pub use Result.*
unfoldable pub use Stability.*
