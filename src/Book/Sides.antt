-- ===== src/Book/Sides.antt =====
-- The contest of the bonds in `resolveMarket` (src/markets/parimutuel.engine.ts).
--
-- `rows` are the disputes as the pass read them. A winner is paid on the stored row, and the copies
-- in hand are saved at the end.
use Prim.Native.String.{String}
use text.Mathlib.Text.{◌==◌ as str_eq}
use oro_backend.Base.{
  ℕ, ◌+◌, ◌-◌, ◌*◌, ◌/◌, Bool, true, false, not, ◌&&◌, ◌==◌, Option, none, some, List, [], ◌∷◌,
  ◌++◌, ltb, keep, length, if◌then◌else◌,
}
use oro_backend.Base.Int.{pos, ◌+ℤ◌}
use oro_backend.Base.Rows.{Rows, lookup, insert}
use oro_backend.Ledger.{Transaction, TransactionType, Note}
use oro_backend.Ledger.Balance.{ledger_balance}
use oro_backend.Market.{
  Dispute, DisputeBondStatus, MarketBook, Store, currency_of, is_locked, with_ledger,
}
use oro_backend.Book.Settle.{Objector, is_objection}

abbrev pub proposal_changed : Option ℕ → ℕ → Bool
proposal_changed none winning = false
proposal_changed (some proposed) winning = not (winning == proposed)

-- The side that was right: the objectors when the proposal was changed.
abbrev pub has_won : Bool → Dispute → Bool
has_won changed d = if changed then is_objection d.side else not (is_objection d.side)

abbrev pub winners_of : Bool → Rows Dispute → Rows Dispute
winners_of changed group = keep (λ (r : ℕ × Dispute). has_won changed r.1) group

abbrev pub losers_of : Bool → Rows Dispute → Rows Dispute
losers_of changed group = keep (λ (r : ℕ × Dispute). not (has_won changed r.1)) group

abbrev pub bonds_in : Rows Dispute → ℕ
bonds_in [] = 0
bonds_in (r ∷ rows) = r.1.bond_amount + bonds_in rows

-- Rounded down to the last place of the currency.
unfoldable pub reward_share : ℕ → ℕ → Dispute → ℕ
reward_share forfeit_pool winner_total_bond d =
    if ltb 0 winner_total_bond then d.bond_amount * forfeit_pool / winner_total_bond else 0

abbrev pub rewarded_dispute : Dispute → ℕ → Dispute
rewarded_dispute d share = record d {
  upheld = some true;
  bond_status = DisputeBondStatus.rewarded;
  reward_amount = share;
}

abbrev pub bond_row : Store → String → Dispute → ℕ → Transaction
bond_row s currency d share =
    let balance_before = ledger_balance s.duels.ledger d.user currency in
    record {
      user = d.user;
      type = TransactionType.dispute_bond_reward;
      amount = pos (d.bond_amount + share);
      currency = currency;
      balance_before = balance_before;
      balance_after = balance_before +ℤ pos (d.bond_amount + share);
      payment = none;
      position = none;
      note = Note.contest_won (is_objection d.side) share;
    }

-- The copy in hand and the stored row must both be locked. The copy is returned as it is left.
unfoldable pub pay_bond : String → ℕ → ℕ × Dispute → Store → (ℕ × Dispute) × Store
pay_bond currency share (key, d) s =
    let stored = elim (lookup key s.disputes) as (λ _. Bool) [
      | none ↦ false
      | some locked ↦ is_locked locked.bond_status
    ] in
    if is_locked d.bond_status && stored
    then (
      (key, rewarded_dispute d share),
      record (with_ledger (bond_row s currency d share ∷ s.duels.ledger) s) {
        disputes = insert key (rewarded_dispute d share) s.disputes;
      },
    )
    else ((key, d), s)

-- The copies and the store after the winners; the shares are summed whoever is paid.
unfoldable pub pay_bonds : String → ℕ → ℕ → Rows Dispute → Store → ℕ × Rows Dispute × Store
unfolding pay_bond reward_share
pay_bonds currency forfeit_pool winner_total_bond [] s = (0, [], s)
pay_bonds currency forfeit_pool winner_total_bond (r ∷ winners) s =
    let share = reward_share forfeit_pool winner_total_bond r.1 in
    let (copy, s') = pay_bond currency share r s in
    let (distributed, copies, s'') = pay_bonds currency forfeit_pool winner_total_bond winners s' in
    (share + distributed, copy ∷ copies, s'')

abbrev pub forfeit_all : Rows Dispute → Rows Dispute
forfeit_all [] = []
forfeit_all ((key, d) ∷ losers) =
    (key, record d { upheld = some false; bond_status = DisputeBondStatus.forfeited })
    ∷ forfeit_all losers

abbrev pub set_bond_pool : ℕ → String → ℕ → List MarketBook → List MarketBook
set_bond_pool market currency pool [] = []
set_bond_pool market currency pool (b ∷ books) =
    let rest = set_bond_pool market currency pool books in
    if b.market == market && str_eq b.currency currency
    then record b { dispute_bond_pool = pool } ∷ rest
    else b ∷ rest

abbrev pub objectors_of : Rows Dispute → List Objector
objectors_of [] = []
objectors_of (r ∷ rows) =
    record { user = r.1.user; bond_amount = r.1.bond_amount } ∷ objectors_of rows

-- What the contest of one book leaves: the forfeits that nobody is paid, the objectors to reward
-- from the house cut, and the copies in hand.
pub record Group : Type 0 where
  pub unclaimed : ℕ
  pub to_reward : List Objector
  pub copies : Rows Dispute
  pub store : Store

unfoldable pub settle_group : ℕ → Bool → String → Rows Dispute → Store → Group
unfolding pay_bonds
settle_group market changed currency group s =
    let winners = winners_of changed group in
    let losers = losers_of changed group in
    let forfeit_pool = bonds_in losers in
    let pooled = record s { books = set_bond_pool market currency forfeit_pool s.books } in
    let (distributed, copies, paid) =
      pay_bonds currency forfeit_pool (bonds_in winners) winners pooled in
    record {
      unclaimed = forfeit_pool - distributed;
      to_reward =
          if (changed && ltb 0 (length winners)) && length losers == 0
          then objectors_of winners
          else [];
      copies = copies ++ forfeit_all losers;
      store = paid;
    }

-- The keys of `byCurrency`, in the order in which they are first met.
abbrev pub distinct_currencies : Rows Dispute → List String
distinct_currencies [] = []
distinct_currencies (r ∷ rows) =
    let c = currency_of r.1.currency in
    c ∷ keep (λ (x : String). not (str_eq x c)) (distinct_currencies rows)

abbrev pub group_of : String → Rows Dispute → Rows Dispute
group_of currency rows = keep (λ (r : ℕ × Dispute). str_eq (currency_of r.1.currency) currency) rows

pub record Contest : Type 0 where
  pub forfeits : List (String × ℕ)
  pub rewards : List (String × List Objector)
  pub copies : Rows Dispute
  pub store : Store

unfoldable pub settle_groups : ℕ → Bool → Rows Dispute → List String → Store → Contest
unfolding settle_group
settle_groups market changed rows [] s = record {
  forfeits = [];
  rewards = [];
  copies = [];
  store = s;
}
settle_groups market changed rows (c ∷ cs) s =
    let g = settle_group market changed c (group_of c rows) s in
    let rest = settle_groups market changed rows cs g.store in
    record {
      forfeits = (c, g.unclaimed) ∷ rest.forfeits;
      rewards = (c, g.to_reward) ∷ rest.rewards;
      copies = g.copies ++ rest.copies;
      store = rest.store;
    }

-- `disputeRepo.save(disputes)`.
unfoldable pub save_copies : Rows Dispute → Rows Dispute → Rows Dispute
save_copies [] table = table
save_copies ((key, d) ∷ copies) table = save_copies copies (insert key d table)

unfoldable pub settle_contest : ℕ → Option ℕ → ℕ → Rows Dispute → Store → Contest
unfolding settle_groups save_copies
settle_contest market proposed winning rows s =
    let changed = proposal_changed proposed winning in
    let c = settle_groups market changed rows (distinct_currencies rows) s in
    record c { store = record c.store { disputes = save_copies c.copies c.store.disputes } }

abbrev pub disputes_on : ℕ → Store → Rows Dispute
disputes_on market s = keep (λ (r : ℕ × Dispute). r.1.market == market) s.disputes
