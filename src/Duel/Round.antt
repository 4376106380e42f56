-- ===== src/Duel/Round.antt =====
-- What one round of `settleByMarket` does to the tables (src/challenges/challenges.service.ts).
use oro_backend.Base.{
  ℕ, ◌+◌, ◌*◌, ◌-◌, ◌==◌, ◌≡◌, ◌≢◌, inl, inr, Bool, true, Option, none, some, arith, Option-cases,
  if◌then◌else◌,
}
use oro_backend.Base.Int.{pos, ◌+ℤ◌, int_laws}
use oro_backend.Base.Rows.{lookup, insert}
use oro_backend.Ledger.{Note, btn_currency}
use oro_backend.Ledger.Balance.{ledger_balance}
use oro_backend.Duel.Tables.{Store, Challenge, ChallengeStatus, CardType}
use oro_backend.Duel.Wager.{credit}
use oro_backend.Duel.Void.{is_live, void_challenge}
use oro_backend.Duel.Settle.{
  is_distributed, platform_cut_of, pay_winner, winner_of, settle_decided, settle_one,
}
use oro_backend.Duel.Conservation.{award_tables, pay_winner-challenges}

-- The row that a live duel ends as.
abbrev pub final_row : Option ℕ → ℕ → Challenge → Challenge
final_row none now c = record c { status = ChallengeStatus.void; settled_at = some now }
final_row (some winning) now c = elim c.joiner [
  | none ↦ record c { status = ChallengeStatus.void; settled_at = some now }
  | some joiner ↦ record c {
    status = ChallengeStatus.settled;
    winner = some (if c.outcome == winning then c.creator else joiner);
    settled_at = some now;
  }
]

abbrev pub when : Bool → ℕ → ℕ
when b n = if b then n else 0

-- What a live duel pays to one user: the wager of each side when it is called off, and the pot
-- less the fee to the side that was right when it is decided.
abbrev pub refund_to : ℕ → Challenge → ℕ
refund_to user c =
    when (c.creator == user) c.wager_amount
    + elim c.joiner [ none ↦ 0 | some j ↦ when (j == user) c.wager_amount ]

abbrev pub paid_to : Option ℕ → ℕ → Challenge → ℕ
paid_to none user c = refund_to user c
paid_to (some winning) user c = elim c.joiner [
  | none ↦ refund_to user c
  | some joiner ↦
      when ((if c.outcome == winning then c.creator else joiner) == user)
        (c.wager_amount * 2 - platform_cut_of c)
]

void_challenge_round :
    (key : ℕ) (c : Challenge) (note : Note) (now user : ℕ) (s : Store)
    → lookup key s.challenges ≡ some c
    → is_live c.status ≡ true
    → let s' = (void_challenge key note now s).1 in
      (s'.challenges ≡ insert key (final_row none now c) s.challenges)
      × (s'.distributions ≡ s.distributions)
      × (ledger_balance s'.ledger user btn_currency
          ≡ ledger_balance s.ledger user btn_currency +ℤ pos (refund_to user c))
unfolding void_challenge credit ledger_balance
void_challenge_round key c note now user s e live = grind int_laws

pay_winner-ledger_balance :
    (key : ℕ) (c : Challenge) (winner user : ℕ) (s : Store)
    → ledger_balance (pay_winner key c winner s).ledger user btn_currency
      ≡ ledger_balance s.ledger user btn_currency
        +ℤ pos (when (winner == user) (c.wager_amount * 2 - platform_cut_of c))
unfolding pay_winner credit ledger_balance
pay_winner-ledger_balance key c winner user s = grind int_laws

pay_winner_distributions :
    (key j : ℕ) (c : Challenge) (winner : ℕ) (s : Store)
    → j ≢ key
    → is_distributed (pay_winner key c winner s) j ≡ is_distributed s j
unfolding pay_winner credit
pay_winner_distributions key j c winner s ne = ground arith

settle_decided_round :
    (key : ℕ) (c : Challenge) (joiner winning now user : ℕ) (drawn : CardType) (s : Store)
    → c.joiner ≡ some joiner
    → let s' = settle_decided key c joiner winning now drawn s in
      (s'.challenges ≡ insert key (final_row (some winning) now c) s.challenges)
      × (ledger_balance s'.ledger user btn_currency
          ≡ ledger_balance s.ledger user btn_currency +ℤ pos (paid_to (some winning) user c))
unfolding settle_decided
settle_decided_round key c joiner winning now user drawn s j =
    let w = winner_of c joiner winning in
    grind (
      int_laws,
      award_tables w drawn s,
      award_tables w drawn (pay_winner key c w s),
      pay_winner-ledger_balance key c w user s,
      pay_winner-challenges key c w s,
    )

settle_decided_distributions :
    (key j : ℕ) (c : Challenge) (joiner winning now : ℕ) (drawn : CardType) (s : Store)
    → j ≢ key
    → is_distributed (settle_decided key c joiner winning now drawn s) j ≡ is_distributed s j
unfolding settle_decided
settle_decided_distributions key j c joiner winning now drawn s ne =
    let w = winner_of c joiner winning in
    ground (
      arith,
      award_tables w drawn s,
      award_tables w drawn (pay_winner key c w s),
      pay_winner_distributions key j c w s ne,
    )

-- A live duel ends as its final row and pays each user what it owes them.
pub settle_one_round :
    (winning : Option ℕ) (now : ℕ) (draw : ℕ → CardType) (key : ℕ) (c : Challenge) (user : ℕ)
    (s : Store)
    → lookup key s.challenges ≡ some c
    → is_live c.status ≡ true
    → let s' = settle_one winning now draw (key, c) s in
      (s'.challenges ≡ insert key (final_row winning now c) s.challenges)
      × (ledger_balance s'.ledger user btn_currency
          ≡ ledger_balance s.ledger user btn_currency +ℤ pos (paid_to winning user c))
unfolding settle_one
settle_one_round none now draw key c user s e live =
    let r = void_challenge_round key c (Note.duel_void_refund key) now user s e live in (r.0, r.2)
settle_one_round (some winning) now draw key c user s e live = elim (Option-cases c.joiner) [
  | inl alone ↦
      let r = void_challenge_round key c (Note.duel_void_refund key) now user s e live in
      ground (arith, r)
  | inr (joiner, j) ↦
      let r = settle_decided_round key c joiner winning now user (draw key) s j in ground (arith, r)
]

-- It books no fee for another duel.
pub settle_one_distributions :
    (winning : Option ℕ) (now : ℕ) (draw : ℕ → CardType) (key j : ℕ) (c : Challenge) (s : Store)
    → lookup key s.challenges ≡ some c
    → is_live c.status ≡ true
    → j ≢ key
    → is_distributed (settle_one winning now draw (key, c) s) j ≡ is_distributed s j
unfolding settle_one
settle_one_distributions none now draw key j c s e live ne =
    ground (arith, void_challenge_round key c (Note.duel_void_refund key) now 0 s e live)
settle_one_distributions (some winning) now draw key j c s e live ne =
    elim (Option-cases c.joiner) [
      | inl alone ↦
          ground (arith, void_challenge_round key c (Note.duel_void_refund key) now 0 s e live)
      | inr (joiner, p) ↦
          ground (arith, settle_decided_distributions key j c joiner winning now (draw key) s ne)
    ]
