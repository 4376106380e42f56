-- ===== src/Duel/Money.antt =====
-- Where the money of the duels is: in the ledger, locked in live duels, or booked as fees.
use oro_backend.Base.{
  ℕ, ◌+◌, ◌*◌, ◌≡◌, refl, Option, none, some, List, [], ◌∷◌, arith, if◌then◌else◌,
}
use oro_backend.Base.Int.{ℤ, pos, ◌+ℤ◌}
use oro_backend.Base.Rows.{Rows, lookup, insert}
use oro_backend.Ledger.{Note, TransactionType}
use oro_backend.Ledger.Balance.{btn_total}
use oro_backend.Duel.Tables.{Store, Challenge, Distribution}
use oro_backend.Duel.Wager.{credit}
use oro_backend.Duel.Void.{is_live}

-- How many sides have put up the wager.
abbrev pub sides : Option ℕ → ℕ
sides none = 1
sides (some _) = 2

abbrev pub locked : Challenge → ℕ
locked c = if is_live c.status then c.wager_amount * sides c.joiner else 0

abbrev pub escrow : Rows Challenge → ℕ
escrow [] = 0
escrow (r ∷ rows) = locked r.1 + escrow rows

abbrev pub revenue : List Distribution → ℕ
revenue [] = 0
revenue (d ∷ ds) = d.amount + revenue ds

abbrev pub money : Store → ℤ
money s = btn_total s.ledger +ℤ pos (escrow s.challenges + revenue s.distributions)

pub escrow-insert :
    (k : ℕ) (c old : Challenge) (rows : Rows Challenge)
    → lookup k rows ≡ some old
    → escrow (insert k c rows) + locked old ≡ escrow rows + locked c
escrow-insert k c old [] e = cc
escrow-insert k c old (r ∷ rows) e = ground (arith, escrow-insert k c old rows)

pub escrow-insert_new :
    (k : ℕ) (c : Challenge) (rows : Rows Challenge)
    → lookup k rows ≡ none
    → escrow (insert k c rows) ≡ escrow rows + locked c
escrow-insert_new k c [] e = omega arith
escrow-insert_new k c (r ∷ rows) e = ground (arith, escrow-insert_new k c rows)

pub btn_total-credit :
    (user amount : ℕ) (note : Note) (ref : Option ℕ) (type : TransactionType) (s : Store)
    → btn_total (credit user amount note ref type s).ledger ≡ pos amount +ℤ btn_total s.ledger
unfolding credit btn_total
btn_total-credit user amount note ref type s = refl
