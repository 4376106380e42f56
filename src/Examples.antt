-- ===== src/Examples.antt =====
-- The theorems at concrete inputs.
mod Duels
mod Withdrawals
mod Markets
mod Books
mod Readings
mod Tables
mod Stakes
mod Payouts
mod Credits
