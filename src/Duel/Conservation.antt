-- ===== src/Duel/Conservation.antt =====
-- The money of a void and of a decided duel (src/challenges/challenges.service.ts).
use oro_backend.Base.{ℕ, ◌*◌, ◌≡◌, refl, inl, inr, true, false, Option, some, arith, Option-cases}
use oro_backend.Base.Int.{pos, ◌+ℤ◌, int_laws}
use oro_backend.Base.Rows.{lookup}
use oro_backend.Ledger.{Note, TransactionType}
use oro_backend.Ledger.Balance.{btn_total}
use oro_backend.Duel.Tables.{Store, Challenge, ChallengeStatus, CardType}
use oro_backend.Duel.Wager.{credit}
use oro_backend.Duel.Cards.{award_milestone_cards}
use oro_backend.Duel.Void.{is_live, void_challenge}
use oro_backend.Duel.Settle.{is_distributed, pay_winner, winner_of, settle_decided}
use oro_backend.Duel.Money.{money, escrow-insert}

pub credit-challenges :
    (user amount : ℕ) (note : Note) (ref : Option ℕ) (type : TransactionType) (s : Store)
    → ((credit user amount note ref type s).challenges ≡ s.challenges)
      × ((credit user amount note ref type s).distributions ≡ s.distributions)
unfolding credit
credit-challenges user amount note ref type s = (refl, refl)

pub award_tables :
    (user : ℕ) (drawn : CardType) (s : Store)
    → ((award_milestone_cards user drawn s).ledger ≡ s.ledger)
      × ((award_milestone_cards user drawn s).challenges ≡ s.challenges)
      × ((award_milestone_cards user drawn s).distributions ≡ s.distributions)
unfolding award_milestone_cards
award_tables user drawn s = ground arith

-- A void returns what each side put up, and an unclaimed one does nothing.
pub void_challenge-money :
    (key : ℕ) (note : Note) (now : ℕ) (s : Store)
    → money (void_challenge key note now s).1 ≡ money s
unfolding void_challenge credit btn_total
void_challenge-money key note now s = elim (Option-cases (lookup key s.challenges)) [
  | inl absent ↦ ground arith
  | inr (c, e) ↦ grind (
    int_laws,
    escrow-insert key (record c { status = ChallengeStatus.void; settled_at = some now }) c
        s.challenges e,
  )
]

-- The payout and the booked fee make up the whole pot.
pub pay_winner-money :
    (key : ℕ) (c : Challenge) (winner : ℕ) (s : Store)
    → is_distributed s key ≡ false
    → money (pay_winner key c winner s) ≡ money s +ℤ pos (c.wager_amount * 2)
unfolding pay_winner credit btn_total
pay_winner-money key c winner s fresh = grind int_laws

pub pay_winner-challenges :
    (key : ℕ) (c : Challenge) (winner : ℕ) (s : Store)
    → (pay_winner key c winner s).challenges ≡ s.challenges
unfolding pay_winner credit
pay_winner-challenges key c winner s = ground arith

-- A decided duel turns its escrow into the payout and the fee.
pub settle_decided-money :
    (key : ℕ) (c : Challenge) (joiner winning now : ℕ) (drawn : CardType) (s : Store)
    → lookup key s.challenges ≡ some c
    → is_live c.status ≡ true
    → c.joiner ≡ some joiner
    → is_distributed s key ≡ false
    → money (settle_decided key c joiner winning now drawn s) ≡ money s
unfolding settle_decided
settle_decided-money key c joiner winning now drawn s e live j fresh =
    let w = winner_of c joiner winning in
    let done : Challenge = record c {
      status = ChallengeStatus.settled;
      winner = some w;
      settled_at = some now;
    } in
    grind (
      int_laws,
      award_tables w drawn s,
      award_tables w drawn (pay_winner key c w s),
      pay_winner-money key c w s fresh,
      pay_winner-challenges key c w s,
      escrow-insert key done c s.challenges e,
    )
