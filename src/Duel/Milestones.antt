-- ===== src/Duel/Milestones.antt =====
-- Which win earns a card: `settleByMarket` awards before it saves the settled row
-- (src/challenges/challenges.service.ts).
use oro_backend.Base.{
  ℕ, ◌+◌, ◌≡◌, refl, inl, inr, true, none, some, [], ◌∷◌, arith, ltb, Bool-cases, ==_refl,
}
use oro_backend.Base.Rows.{Rows, lookup, insert}
use oro_backend.Duel.Tables.{Store, Challenge, ChallengeStatus, CardType}
use oro_backend.Duel.Wager.{credit}
use oro_backend.Duel.Cards.{total_wins, milestone_card, award_milestone_cards}
use oro_backend.Duel.Void.{is_live}
use oro_backend.Duel.Settle.{pay_winner, winner_of, settle_decided}
use oro_backend.Duel.Conservation.{pay_winner-challenges}

abbrev won_by : ℕ → ℕ → Challenge → Challenge
won_by winner now c = record c {
  status = ChallengeStatus.settled;
  winner = some winner;
  settled_at = some now;
}

total_wins-insert :
    (key winner now : ℕ) (c : Challenge) (rows : Rows Challenge)
    → lookup key rows ≡ some c
    → is_live c.status ≡ true
    → total_wins (insert key (won_by winner now c) rows) winner ≡ total_wins rows winner + 1
unfolding total_wins
total_wins-insert key winner now c [] e live = cc
total_wins-insert key winner now c (r ∷ rows) e live =
    ground (arith, total_wins-insert key winner now c rows, ==_refl winner)

pay_winner-users :
    (key : ℕ) (c : Challenge) (winner : ℕ) (s : Store) → (pay_winner key c winner s).users ≡ s.users
unfolding pay_winner credit
pay_winner-users key c winner s = ground arith

award_none :
    (user : ℕ) (drawn : CardType) (s : Store)
    → milestone_card (total_wins s.challenges user) drawn ≡ none
    → award_milestone_cards user drawn s ≡ s
unfolding award_milestone_cards
award_none user drawn s h = rw (h, award_milestone_cards) refl

-- When the settled wins that the winner already had earn no card, settling one more duel gives the
-- winner one more win and hands out no card.
pub milestone_lags :
    (key : ℕ) (c : Challenge) (joiner winning now : ℕ) (drawn : CardType) (s : Store)
    → lookup key s.challenges ≡ some c
    → is_live c.status ≡ true
    → milestone_card (total_wins s.challenges (winner_of c joiner winning)) drawn ≡ none
    → let winner = winner_of c joiner winning in
      let s' = settle_decided key c joiner winning now drawn s in
      (total_wins s'.challenges winner ≡ total_wins s.challenges winner + 1) × (s'.users ≡ s.users)
unfolding settle_decided
milestone_lags key c joiner winning now drawn s e live no_card =
    let w = winner_of c joiner winning in
    let paid = pay_winner key c w s in
    let same = pay_winner-challenges key c w s in
    elim (Bool-cases (ltb 0 c.wager_amount)) [
      | inl staked ↦
          rw (staked, award_none w drawn paid (rw same no_card))
            (
              rw same (total_wins-insert key w now c s.challenges e live),
              pay_winner-users key c w s,
            )
      | inr free ↦
          rw (free, award_none w drawn s no_card)
            (total_wins-insert key w now c s.challenges e live, refl)
    ]
