-- ===== src/Duel/Create.antt =====
-- `create` and `join` (src/challenges/challenges.service.ts).
use oro_backend.Base.{
  ℕ, ◌+◌, Bool, true, false, not, ◌&&◌, ◌||◌, ◌==◌, Option, none, some, ltb, count_of, exists_in,
  if◌then◌else◌,
}
use oro_backend.Base.Int.{ℤ, pos, pos_part, ltb_ℤ}
use oro_backend.Base.Rows.{lookup, insert}
use oro_backend.Entities.{MarketStatus, PositionStatus}
use oro_backend.Ledger.{Note}
use oro_backend.Duel.Tables.{
  Store, Challenge, ChallengeStatus, CardType, Position, Market, Action, negative_wager,
  shield_not_equippable, market_not_found, market_not_open, no_active_bet, duplicate_challenge,
  challenge_not_found, challenge_expired, challenge_not_open, own_challenge, too_few_predictions,
  pure, gets, or_raise, raise_if, modify, transaction, ◌>>=◌, ◌>>◌,
}
use oro_backend.Duel.Wager.{debit}
use oro_backend.Duel.Cards.{consume_card}

abbrev pub min_predictions_required : ℕ
min_predictions_required = 5

abbrev is_shield : Option CardType → Bool
is_shield (some CardType.shield) = true
is_shield _ = false

abbrev is_open_market : MarketStatus → Bool
is_open_market MarketStatus.opened = true
is_open_market _ = false

abbrev is_pending : PositionStatus → Bool
is_pending PositionStatus.pending = true
is_pending _ = false

abbrev pub is_open : ChallengeStatus → Bool
is_open ChallengeStatus.opened = true
is_open _ = false

abbrev is_expired : ChallengeStatus → Bool
is_expired ChallengeStatus.expired = true
is_expired _ = false

abbrev pub bets_of : Store → ℕ → ℕ
bets_of s user = count_of (λ (p : Position). p.user == user) s.positions

abbrev pub has_active_bet : Store → ℕ → ℕ → Bool
has_active_bet s user market =
    exists_in (λ (p : Position). p.user == user && p.market == market && is_pending p.status)
      s.positions

abbrev pub has_open_challenge : Store → ℕ → ℕ → Bool
has_open_challenge s user market =
    exists_in
      (λ (r : ℕ × Challenge). r.1.creator == user && r.1.market == market && is_open r.1.status)
      s.challenges

abbrev pub lock_wager : ℕ → ℕ → ℕ → Action (Unit {0})
lock_wager creator market wager =
    if ltb 0 wager
    then transaction (debit creator wager (Note.wager_locked_market market) none)
    else pure tt

abbrev pub spend_card : ℕ → Option CardType → Action (Unit {0})
spend_card creator none = pure tt
spend_card creator (some card) = consume_card creator card

abbrev pub new_challenge : ℕ → ℕ → ℕ → ℕ → Option CardType → ℕ → Challenge
new_challenge creator market outcome wager card closes_at = record {
  creator = creator;
  market = market;
  outcome = outcome;
  status = ChallengeStatus.opened;
  participant_count = 0;
  wager_amount = wager;
  joiner = none;
  winner = none;
  settled_at = none;
  equipped_card = card;
  expires_at = closes_at;
}

-- `challengeRepo.save` of a new row, under the key that the database gives it.
abbrev pub save_new : Challenge → Action ℕ
save_new c = do
  key ← gets (λ s. s.next_challenge)
  modify (λ s. record s { challenges = insert key c s.challenges; next_challenge = key + 1 })
  pure key

-- The checks that stand before any money moves; the result is the market.
unfoldable pub check_create : ℕ → ℕ → ℤ → Option CardType → Action Market
check_create creator market wager card = do
  raise_if (ltb_ℤ wager (pos 0)) negative_wager
  raise_if (is_shield card) shield_not_equippable
  bets ← gets (λ s. bets_of s creator)
  raise_if (ltb bets min_predictions_required) (too_few_predictions bets)
  m ← or_raise (← gets (λ s. lookup market s.markets)) market_not_found
  raise_if (not (is_open_market m.status)) market_not_open
  raise_if (not (← gets (λ s. has_active_bet s creator market))) no_active_bet
  raise_if (← gets (λ s. has_open_challenge s creator market)) duplicate_challenge
  pure m

unfoldable pub create : ℕ → ℕ → ℕ → ℤ → Option CardType → Action ℕ
unfolding check_create
create creator market outcome wager card = do
  m ← check_create creator market wager card
  lock_wager creator market (pos_part wager)
  spend_card creator card
  save_new (new_challenge creator market outcome (pos_part wager) card m.closes_at)

-- The joiner's wager, inside the transaction of `join`.
abbrev pub match_wager : ℕ → ℕ → ℕ → Action (Unit {0})
match_wager user wager key =
    if ltb 0 wager then debit user wager (Note.wager_locked_challenge key) (some key) else pure tt

unfoldable pub join : ℕ → ℕ → ℕ → Action Challenge
join key user now = transaction do
  c ← or_raise (← gets (λ s. lookup key s.challenges)) challenge_not_found
  raise_if (is_expired c.status || ltb c.expires_at now) challenge_expired
  raise_if (not (is_open c.status)) challenge_not_open
  raise_if (c.creator == user) own_challenge
  match_wager user c.wager_amount key
  let joined = record c {
    participant_count = c.participant_count + 1;
    joiner = some user;
    status = ChallengeStatus.active;
  }
  modify (λ s. record s { challenges = insert key joined s.challenges })
  pure joined
