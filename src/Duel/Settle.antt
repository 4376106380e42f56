-- ===== src/Duel/Settle.antt =====
-- `settleByMarket` (src/challenges/challenges.service.ts) and `recordDuelDistribution`
-- (src/markets/revenue-distribution.service.ts).
use oro_backend.Base.{
  ℕ, ◌-◌, ◌*◌, ◌/◌, Bool, true, false, ◌&&◌, ◌==◌, Option, none, some, [], ◌∷◌, ltb, leb, keep,
  exists_in, if◌then◌else◌,
}
use oro_backend.Base.Rows.{Rows, insert}
use oro_backend.Ledger.{Note, TransactionType}
use oro_backend.Duel.Tables.{Store, Challenge, ChallengeStatus, CardType, Distribution}
use oro_backend.Duel.Wager.{credit}
use oro_backend.Duel.Cards.{award_milestone_cards}
use oro_backend.Duel.Void.{is_live, void_challenge}

abbrev pub is_distributed : Store → ℕ → Bool
is_distributed s key = exists_in (λ (d : Distribution). d.challenge == key) s.distributions

unfoldable pub record_duel_distribution : ℕ → ℕ → ℕ → ℕ → Store → Store
record_duel_distribution key platform_cut total_pot fee_pct s =
    if leb platform_cut 0 then s else if is_distributed s key then s else record s {
      distributions =
          record {
            challenge = key;
            amount = platform_cut;
            total_pot = total_pot;
            fee_pct = fee_pct;
          }
          ∷ s.distributions;
    }

abbrev pub waives_fee : Option CardType → Bool
waives_fee (some CardType.double_down) = true
waives_fee _ = false

-- `PLATFORM_FEE_PCT` is a tenth: exact for a pot that ten divides in the last decimal place.
unfoldable pub platform_cut_of : Challenge → ℕ
platform_cut_of c = if waives_fee c.equipped_card then 0 else c.wager_amount * 2 / 10

-- The money of a decided duel.
unfoldable pub pay_winner : ℕ → Challenge → ℕ → Store → Store
unfolding platform_cut_of record_duel_distribution
pay_winner key c winner s =
    let total_pot = c.wager_amount * 2 in
    let platform_cut = platform_cut_of c in
    let paid =
      credit winner (total_pot - platform_cut) (Note.duel_win (waives_fee c.equipped_card) key)
        (some key) TransactionType.duel_payout s in
    if ltb 0 platform_cut then record_duel_distribution key platform_cut total_pot 10 paid else paid

unfoldable pub winner_of : Challenge → ℕ → ℕ → ℕ
winner_of c joiner winning = if c.outcome == winning then c.creator else joiner

-- The branch of a duel with two sides, on the row as it was read.
unfoldable pub settle_decided : ℕ → Challenge → ℕ → ℕ → ℕ → CardType → Store → Store
unfolding pay_winner winner_of
settle_decided key c joiner winning now drawn s =
    let winner = winner_of c joiner winning in
    let paid = if ltb 0 c.wager_amount then pay_winner key c winner s else s in
    let awarded = award_milestone_cards winner drawn paid in
    record awarded {
      challenges =
          insert key
            (record c {
              status = ChallengeStatus.settled;
              winner = some winner;
              settled_at = some now;
            })
            awarded.challenges;
    }

-- One round of the loop; `draw` is the random card of each round.
unfoldable pub settle_one : Option ℕ → ℕ → (ℕ → CardType) → ℕ × Challenge → Store → Store
settle_one none now draw (key, c) s = (void_challenge key (Note.duel_void_refund key) now s).1
settle_one (some winning) now draw (key, c) s = elim c.joiner [
  | none ↦ (void_challenge key (Note.duel_void_refund key) now s).1
  | some joiner ↦ settle_decided key c joiner winning now (draw key) s
]

unfoldable pub settle_all : Option ℕ → ℕ → (ℕ → CardType) → Rows Challenge → Store → Store
unfolding settle_one
settle_all winning now draw [] s = s
settle_all winning now draw (r ∷ rows) s =
    settle_all winning now draw rows (settle_one winning now draw r s)

-- The live duels on the market, as the query reads them.
unfoldable pub live_on : ℕ → Rows Challenge → Rows Challenge
live_on market rows = keep (λ (r : ℕ × Challenge). r.1.market == market && is_live r.1.status) rows

unfoldable pub settle_by_market : ℕ → Option ℕ → ℕ → (ℕ → CardType) → Store → Store
unfolding settle_all live_on
settle_by_market market winning now draw s =
    settle_all winning now draw (live_on market s.challenges) s
