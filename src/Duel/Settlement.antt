-- ===== src/Duel/Settlement.antt =====
-- The loop of `settleByMarket` over its snapshot (src/challenges/challenges.service.ts).
use oro_backend.Base.{
  ℕ, ◌+◌, ◌≡◌, ◌≢◌, refl, inl, inr, true, false, Option, none, some, [], ◌∷◌, arith, Option-cases,
  ◌∙◌,
}
use oro_backend.Base.Int.{pos, ◌+ℤ◌, int_laws}
use oro_backend.Base.Rows.{Rows, lookup, lookup-insert, lookup-insert_ne, UniqueKeys}
use oro_backend.Ledger.{Note, btn_currency}
use oro_backend.Ledger.Balance.{ledger_balance}
use oro_backend.Duel.Tables.{Store, Challenge, CardType}
use oro_backend.Duel.Void.{is_live}
use oro_backend.Duel.Settle.{is_distributed, settle_one, settle_all}
use oro_backend.Duel.Money.{money}
use oro_backend.Duel.Conservation.{void_challenge-money, settle_decided-money}
use oro_backend.Duel.Round.{final_row, paid_to, settle_one_round, settle_one_distributions}

pub settle_one-money :
    (winning : Option ℕ) (now : ℕ) (draw : ℕ → CardType) (key : ℕ) (c : Challenge) (s : Store)
    → lookup key s.challenges ≡ some c
    → is_live c.status ≡ true
    → is_distributed s key ≡ false
    → money (settle_one winning now draw (key, c) s) ≡ money s
unfolding settle_one
settle_one-money none now draw key c s e live fresh = void_challenge-money key _ now s
settle_one-money (some winning) now draw key c s e live fresh = elim (Option-cases c.joiner) [
  | inl alone ↦ ground (arith, void_challenge-money key (Note.duel_void_refund key) now s)
  | inr (joiner, j) ↦
      ground (arith, settle_decided-money key c joiner winning now (draw key) s e live j fresh)
]

-- The rows of a snapshot that the tables still agree with: live, and with no fee booked.
abbrev pub Pending : Store → Rows Challenge → Type 0
Pending s [] = Unit
Pending s ((k, c) ∷ rows) =
    ((lookup k s.challenges ≡ some c) × (is_live c.status ≡ true) × (is_distributed s k ≡ false))
    × Pending s rows

pub settle_one-Pending :
    (winning : Option ℕ) (now : ℕ) (draw : ℕ → CardType) (key : ℕ) (c : Challenge) (s : Store)
    (rows : Rows Challenge)
    → lookup key s.challenges ≡ some c
    → is_live c.status ≡ true
    → lookup key rows ≡ none
    → Pending s rows
    → Pending (settle_one winning now draw (key, c) s) rows
settle_one-Pending winning now draw key c s [] e live absent p = tt
settle_one-Pending winning now draw key c s ((k, d) ∷ rows) e live absent p =
    let ne : k ≢ key = λ q. ground arith in
    let r = settle_one_round winning now draw key c 0 s e live in
    (
      (
        rw r.0 (rw (lookup-insert_ne k key (final_row winning now c) s.challenges ne) p.0.0),
        p.0.1,
        rw (settle_one_distributions winning now draw key k c s e live ne) p.0.2,
      ),
      settle_one-Pending winning now draw key c s rows e live (ground arith) p.1,
    )

pub settle_all-money :
    (winning : Option ℕ) (now : ℕ) (draw : ℕ → CardType) (rows : Rows Challenge) (s : Store)
    → UniqueKeys rows
    → Pending s rows
    → money (settle_all winning now draw rows s) ≡ money s
unfolding settle_all
settle_all-money winning now draw [] s u p = refl
settle_all-money winning now draw ((k, c) ∷ rows) s u p =
    settle_all-money winning now draw rows (settle_one winning now draw (k, c) s) u.1
      (settle_one-Pending winning now draw k c s rows p.0.0 p.0.1 u.0 p.1)
    ∙ settle_one-money winning now draw k c s p.0.0 p.0.1 p.0.2

-- What the rows of a snapshot pay to one user.
abbrev pub paid_by : Option ℕ → ℕ → Rows Challenge → ℕ
paid_by winning user [] = 0
paid_by winning user (r ∷ rows) = paid_to winning user r.1 + paid_by winning user rows

pub settle_all-ledger_balance :
    (winning : Option ℕ) (now : ℕ) (draw : ℕ → CardType) (user : ℕ) (rows : Rows Challenge)
    (s : Store)
    → UniqueKeys rows
    → Pending s rows
    → ledger_balance (settle_all winning now draw rows s).ledger user btn_currency
      ≡ ledger_balance s.ledger user btn_currency +ℤ pos (paid_by winning user rows)
unfolding settle_all
settle_all-ledger_balance winning now draw user [] s u p = omega int_laws
settle_all-ledger_balance winning now draw user ((k, c) ∷ rows) s u p =
    settle_all-ledger_balance winning now draw user rows (settle_one winning now draw (k, c) s) u.1
      (settle_one-Pending winning now draw k c s rows p.0.0 p.0.1 u.0 p.1)
    ∙ rw (settle_one_round winning now draw k c user s p.0.0 p.0.1).1 (omega int_laws)

-- A row of the snapshot ends as its final row; any other row is as before.
abbrev pub closed_row : Option ℕ → ℕ → Option Challenge → Option Challenge → Option Challenge
closed_row winning now none other = other
closed_row winning now (some c) other = some (final_row winning now c)

pub settle_all-lookup :
    (winning : Option ℕ) (now : ℕ) (draw : ℕ → CardType) (j : ℕ) (rows : Rows Challenge) (s : Store)
    → UniqueKeys rows
    → Pending s rows
    → lookup j (settle_all winning now draw rows s).challenges
      ≡ closed_row winning now (lookup j rows) (lookup j s.challenges)
unfolding settle_all
settle_all-lookup winning now draw j [] s u p = refl
settle_all-lookup winning now draw j ((k, c) ∷ rows) s u p =
    settle_all-lookup winning now draw j rows (settle_one winning now draw (k, c) s) u.1
      (settle_one-Pending winning now draw k c s rows p.0.0 p.0.1 u.0 p.1)
    ∙ rw (settle_one_round winning now draw k c 0 s p.0.0 p.0.1).0
        (ground (arith, lookup-insert j k (final_row winning now c) s.challenges))
