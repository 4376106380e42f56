-- ===== src/Usdt.antt =====
-- Amounts of USDT as text and as base units (src/payment/usdt.util.ts).
--
-- A text is the list of its character codes; a base unit is a millionth. The base units that the
-- source writes as the text of a whole number are that number.
mod Units
pub mod RoundTrip
unfoldable pub use Units.*
