-- ===== src/Lib.antt =====
-- A prediction market's backend: what it does with money and with the state of markets, duels,
-- withdrawals, results, streaks and payouts.
--
-- The program is a set of services over one database. A market collects bets (positions), is
-- closed, resolved after a window for objections with bonds, and settled or cancelled. Duels are
-- wagers between two players beside a market, closed by the market's end. Every balance is
-- derived from the rows of one ledger. Withdrawals by bank reserve the money first and are closed
-- when the bank's answer is known. Withdrawals of USDT are debited when they are asked for, wait
-- for an administrator, are sent to 21 Pay, and are completed or refunded by its news; deposits of
-- USDT are credited when 21 Pay confirms them and reversed when the chain takes them back. The
-- fees of settlements and duels are booked and then sent to an account of the house. Results come
-- from a provider of fixtures.
--
-- Base: tests, lists, signed integers and tables by row key, shared by the rest.
-- Entities, Ledger: enumerations and rows of src/entities, and the derived balances of
--   src/shared/utils/ledger.util.ts (ledger_balance is ledgerBalance,
--   rebuild_running_balances is rebuildRunningBalances).
-- Duel: src/challenges/challenges.service.ts. create, join, void_challenge, settle_by_market,
--   consume_card and award_milestone_cards are the methods of those names, debit and credit the
--   private helpers; record_duel_distribution is of src/markets/revenue-distribution.service.ts and
--   expire_stale_duels is expireAndNotifyStaleDuels of src/jobs/engagement.job.ts.
-- Withdrawal: src/payment/dk-withdrawal.reconciler.ts and src/payment/dk-status.util.ts. finalise,
--   reconcile_one, resolve_manually and run_reconcile_stuck_withdrawals are the methods of those
--   names. The bank's gateway and `toUpperCase` are parameters.
-- Market: src/markets/parimutuel.engine.ts. transition_market, reopen_market, propose_resolution,
--   the checks and the claim of resolveMarket (resolve_gate), refund_positions,
--   release_locked_dispute_bonds and cancel_market, which ends by settling the duels of Duel.
-- Fixture: src/markets/fixture-result.util.ts (read_fixture_result, is_fixture_stable).
-- Streak: src/users/streak.service.ts (update_streak, get_streak_info).
-- Payout: src/markets/winner-payouts.ts (compute_winner_payouts), with the rounding of
--   src/shared/utils/money.util.ts.
-- Book: the rest of src/markets/parimutuel.engine.ts that pays: settle_book, settle_market and
--   refund_and_record_settlement are the methods of those names, settle_contest is the contest of
--   the bonds in resolveMarket. It works on the store of Market, refunds thin books by its
--   refund_positions, and takes the payouts of winners from Payout.
-- Stake: placePosition of the engine (place_position), src/markets/market-book.util.ts
--   (ensure_book) and src/shared/utils/wallet.util.ts (resolve_wallet_currency).
-- Usdt: src/payment/usdt.util.ts (to_base_units, from_base_units).
-- Crypto: src/payment/crypto-withdrawal.service.ts. add_destination, list_destinations, request,
--   approve, reject, submit, resubmit_unconfirmed, handle_webhook, apply_remote_state and restore
--   are the methods of those names; poll_payout is a row of runPollWithdrawals of
--   src/payment/crypto-intent.poller.ts. approve_loaded, reject_loaded and apply_loaded are what
--   follows the load of the row: the loaded copy is an argument, so that calls interleave. 21 Pay
--   and the check of an address are parameters.
-- Deposit: src/payment/crypto-settlement.service.ts (settle, reverse), with the row that it writes
--   of src/payment/usdt-deposit-credit.ts and the polls and the expiry of
--   src/payment/crypto-intent.poller.ts.
-- Revenue: src/markets/revenue-distribution.service.ts (record_distribution, execute_transfer,
--   process_all_pending, resolve_pending_transfers). The bank's gateway is a parameter; the calls
--   that reached it and the amounts that came back are kept beside the tables.
-- Standings: src/markets/unl-standings.util.ts (tally_for, order_level_teams, compute_group_table).
-- Examples: the theorems at concrete inputs.
--
-- A method is a function on a record of the tables that it reads and writes; exceptions are
-- values. A transaction that raises leaves the tables as they were, and what stands outside one
-- stays written. Row keys are numbers, instants are milliseconds, days are numbered, money is
-- counted in the last decimal place of its column, USDT of withdrawals and deposits in base
-- units; where Payout and Book round, `unit` of these parts make the last decimal place of the
-- currency. Loops run over lists that are read before them, by recursion on the list, so no fuel
-- is needed; the order of level teams in Standings runs on fuel, of which one more than there
-- are teams is enough, since each call that it makes has fewer teams, and out of fuel it gives
-- no order. The sweep takes 50 payments, a re-submission 20 withdrawals, a check of transfers 50
-- rows, as the source does.
--
-- Left out: messages, events, caches, logs, activity stamps, failures of the database, and the
-- interleaving of transactions inside one call, for which the conditional updates are functions of
-- the stored row.
-- Double-precision arithmetic is replaced by exact arithmetic with the rounding written out. Not
-- modelled are objections as they are placed, the odds of a stake and what follows its transaction,
-- the steps of resolveMarket after the settlement, deposits by bank and how a bank withdrawal is
-- asked for, USDT wallets and how a USDT deposit is opened, which rows a poll of 21 Pay selects,
-- the fees that are re-derived from settlements, feeds, accounts and administration.
pub mod Base
pub mod Entities
pub mod Ledger
pub mod Duel
pub mod Withdrawal
pub mod Fixture
pub mod Streak
pub mod Payout
pub mod Market
pub mod Book
pub mod Stake
pub mod Usdt
pub mod Crypto
pub mod Deposit
pub mod Revenue
pub mod Standings
mod Examples
