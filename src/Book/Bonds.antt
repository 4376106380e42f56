-- ===== src/Book/Bonds.antt =====
-- The money of the bonds of one contest (src/markets/parimutuel.engine.ts).
use Prim.Native.String.{String}
use oro_backend.Base.{
  ℕ, ◌+◌, ◌*◌, ◌≤◌, ◌≡◌, ◌≢◌, refl, inl, inr, Bool, true, false, ◌==◌, none, some, [], ◌∷◌, ltb,
  Bool-cases, All, arith,
}
use oro_backend.Base.Int.{pos, ◌+ℤ◌, int_laws}
use oro_backend.Base.Rows.{Rows, lookup, insert, lookup-insert_ne, UniqueKeys, keep-UniqueKeys}
use oro_backend.Market.{Dispute, Store, is_locked}
use oro_backend.Payout.{cancel_factor}
use oro_backend.Book.Money.{pool_money, str_eq_refl}
use oro_backend.Book.Sides.{
  has_won, winners_of, losers_of, bonds_in, reward_share, rewarded_dispute, pay_bond, pay_bonds,
  settle_group, set_bond_pool,
}

share_bound :
    (pool total : ℕ) (d : Dispute) → total * reward_share pool total d ≤ d.bond_amount * pool
unfolding reward_share
share_bound pool total d = elim (Bool-cases (ltb 0 total)) [
  | inl some_bond ↦ rw some_bond (grind arith)
  | inr nothing ↦ rw nothing (omega arith)
]

no_share : (pool : ℕ) (d : Dispute) → reward_share pool 0 d ≡ 0
unfolding reward_share
no_share pool d = refl

-- What is distributed, whoever is paid.
distributed_bound :
    (currency : String) (pool total : ℕ) (rows : Rows Dispute) (s : Store)
    → total * (pay_bonds currency pool total rows s).0 ≤ bonds_in rows * pool
unfolding pay_bonds
distributed_bound currency pool total [] s = omega arith
distributed_bound currency pool total (r ∷ rows) s =
    let share = reward_share pool total r.1 in
    let ih = distributed_bound currency pool total rows (pay_bond currency share r s).1 in
    grind (arith, ih, share_bound pool total r.1)

none_distributed :
    (currency : String) (pool : ℕ) (rows : Rows Dispute) (s : Store)
    → (pay_bonds currency pool 0 rows s).0 ≡ 0
unfolding pay_bonds
none_distributed currency pool [] s = refl
none_distributed currency pool (r ∷ rows) s =
    rw (no_share pool r.1, none_distributed currency pool rows (pay_bond currency 0 r s).1) refl

pub distributed_within_pool :
    (currency : String) (pool : ℕ) (rows : Rows Dispute) (s : Store)
    → (pay_bonds currency pool (bonds_in rows) rows s).0 ≤ pool
distributed_within_pool currency pool rows s = elim (Bool-cases (ltb 0 (bonds_in rows))) [
  | inl some_bond ↦
      cancel_factor (bonds_in rows) _ pool (ground arith)
        (distributed_bound currency pool (bonds_in rows) rows s)
  | inr nothing ↦
      let e : bonds_in rows ≡ 0 = ground arith in
      rw e (rw (none_distributed currency pool rows s) (omega arith))
]

abbrev pub stored_locked : ℕ → Rows Dispute → Bool
stored_locked key table = elim (lookup key table) as (λ _. Bool) [
  | none ↦ false
  | some locked ↦ is_locked locked.bond_status
]

-- The copies and the stored rows are locked.
abbrev pub AreLocked : Rows Dispute → Rows Dispute → Type 0
AreLocked rows table =
    All (λ (r : ℕ × Dispute). (is_locked r.1.bond_status ≡ true) × (stored_locked r.0 table ≡ true))
      rows

AreLocked-insert :
    (key : ℕ) (d : Dispute) (rows table : Rows Dispute)
    → lookup key rows ≡ none
    → AreLocked rows table
    → AreLocked rows (insert key d table)
AreLocked-insert key d [] table absent h = tt
AreLocked-insert key d (r ∷ rows) table absent ((copy, stored), h) =
    elim (Bool-cases (key == r.0)) [
      | inl same ↦ ground (arith, same, absent)
      | inr other ↦
          let ne : r.0 ≢ key = ground arith in
          let e : lookup key rows ≡ none = ground (arith, other, absent) in
          (
            (copy, rw (stored_locked, lookup-insert_ne r.0 key d table ne) stored),
            AreLocked-insert key d rows table e h,
          )
    ]

pay_bond_locked :
    (currency : String) (share : ℕ) (r : ℕ × Dispute) (s : Store)
    → is_locked r.1.bond_status ≡ true
    → stored_locked r.0 s.disputes ≡ true
    → ((pay_bond currency share r s).1.disputes
        ≡ insert r.0 (rewarded_dispute r.1 share) s.disputes)
      × (pool_money (pay_bond currency share r s).1.duels.ledger currency
          ≡ pool_money s.duels.ledger currency +ℤ pos (r.1.bond_amount + share))
unfolding pay_bond
pay_bond_locked currency share (key, d) s copy stored =
    rw (copy, stored) (refl, rw (str_eq_refl currency) (omega int_laws))

pay_bonds-money :
    (currency : String) (pool total : ℕ) (rows : Rows Dispute) (s : Store)
    → UniqueKeys rows
    → AreLocked rows s.disputes
    → pool_money (pay_bonds currency pool total rows s).2.duels.ledger currency
      ≡ pool_money s.duels.ledger currency
        +ℤ pos (bonds_in rows + (pay_bonds currency pool total rows s).0)
unfolding pay_bonds
pay_bonds-money currency pool total [] s u h = omega int_laws
pay_bonds-money currency pool total (r ∷ rows) s u ((copy, stored), h) =
    let share = reward_share pool total r.1 in
    let s' = (pay_bond currency share r s).1 in
    let (table, money) = pay_bond_locked currency share r s copy stored in
    let h' : AreLocked rows s'.disputes =
      rw table (AreLocked-insert r.0 (rewarded_dispute r.1 share) rows s.disputes u.0 h) in
    rw (pay_bonds-money currency pool total rows s' u.1 h', money) (omega int_laws)

bonds_split :
    (changed : Bool) (group : Rows Dispute)
    → bonds_in (winners_of changed group) + bonds_in (losers_of changed group) ≡ bonds_in group
bonds_split changed [] = refl
bonds_split changed (r ∷ group) = elim (Bool-cases (has_won changed r.1)) [
  | inl wins ↦ rw wins (omega (arith, bonds_split changed group))
  | inr loses ↦ rw loses (omega (arith, bonds_split changed group))
]

-- When the winners' bonds of one book's contest are locked and keys stand once, what the contest
-- pays in its currency, streak bonuses aside, and what it leaves unclaimed are together exactly
-- all the bonds of the contest.
pub settle_group-money :
    (market : ℕ) (changed : Bool) (currency : String) (group : Rows Dispute) (s : Store)
    → UniqueKeys group
    → AreLocked (winners_of changed group) s.disputes
    → pool_money (settle_group market changed currency group s).store.duels.ledger currency
        +ℤ pos (settle_group market changed currency group s).unclaimed
      ≡ pool_money s.duels.ledger currency +ℤ pos (bonds_in group)
unfolding settle_group
settle_group-money market changed currency group s u h =
    let winners = winners_of changed group in
    let pool = bonds_in (losers_of changed group) in
    let pooled = record s { books = set_bond_pool market currency pool s.books } in
    let within = distributed_within_pool currency pool winners pooled in
    let money =
      pay_bonds-money currency pool (bonds_in winners) winners pooled
        (keep-UniqueKeys (λ (r : ℕ × Dispute). has_won changed r.1) group u) h in
    rw money (omega (int_laws, within, bonds_split changed group))
