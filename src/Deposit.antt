-- ===== src/Deposit.antt =====
-- USDT deposits: their crediting, reversal and polling (src/payment/crypto-settlement.service.ts,
-- src/payment/usdt-deposit-credit.ts, src/payment/crypto-intent.poller.ts,
-- src/entities/crypto-payment-intent.entity.ts).
--
-- Amounts are in base units, so `fromBaseUnits` and `Number` read the number that was sent. An
-- intent stands under the key that 21 Pay gave it. What 21 Pay answers is a parameter. Reasons of a
-- failure, block numbers, messages and events are left out.
mod Tables
mod Settle
mod Poll
pub mod Credits
pub use Tables.*
unfoldable pub use Settle.*
unfoldable pub use Poll.*
