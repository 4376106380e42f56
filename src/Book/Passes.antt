-- ===== src/Book/Passes.antt =====
-- Several passes over the bonds of one market (src/markets/parimutuel.engine.ts).
use Prim.Native.String.{String}
use text.Mathlib.Text.{◌==◌ as str_eq}
use mathlib.Core.Path.{subst}
use oro_backend.Base.{
  ℕ, ◌+◌, ◌≡◌, refl, sym, ap, ◌∙◌, inl, inr, Bool, true, false, ◌&&◌, ==_refl, Option, some, List,
  [], ◌∷◌, ltb, keep, Bool-cases, All, arith,
}
use oro_backend.Base.Int.{pos, ◌+ℤ◌, int_laws}
use oro_backend.Base.Rows.{Rows, lookup, insert, lookup-insert_self}
use oro_backend.Ledger.Balance.{ledger_balance}
use oro_backend.Market.{Dispute, Store, is_locked, currency_of}
use oro_backend.Book.Money.{str_eq_refl}
use oro_backend.Book.Bonds.{stored_locked}
use oro_backend.Book.Sides.{
  has_won, winners_of, losers_of, bonds_in, reward_share, rewarded_dispute, pay_bond, pay_bonds,
  settle_group, set_bond_pool, group_of, settle_groups, settle_contest, distinct_currencies,
  proposal_changed,
}

-- No row that was read is still locked both in hand and in the table.
abbrev pub AreOver : Rows Dispute → Rows Dispute → Type 0
AreOver rows table =
    All (λ (r : ℕ × Dispute). (is_locked r.1.bond_status && stored_locked r.0 table) ≡ false) rows

keep-AreOver :
    (p : ℕ × Dispute → Bool) (rows table : Rows Dispute)
    → AreOver rows table
    → AreOver (keep p rows) table
keep-AreOver p [] table h = tt
keep-AreOver p (r ∷ rows) table h = elim (Bool-cases (p r)) [
  | inl kept ↦ rw kept (h.0, keep-AreOver p rows table h.1)
  | inr dropped ↦ rw dropped (keep-AreOver p rows table h.1)
]

pay_bonds_over :
    (currency : String) (pool total : ℕ) (rows : Rows Dispute) (s : Store)
    → AreOver rows s.disputes
    → (pay_bonds currency pool total rows s).2 ≡ s
unfolding pay_bonds pay_bond
pay_bonds_over currency pool total [] s h = refl
pay_bonds_over currency pool total (r ∷ rows) s (over, h) =
    rw over (pay_bonds_over currency pool total rows s h)

settle_group_over :
    (market : ℕ) (changed : Bool) (currency : String) (group : Rows Dispute) (s : Store)
    → AreOver group s.disputes
    → ((settle_group market changed currency group s).store.duels ≡ s.duels)
      × ((settle_group market changed currency group s).store.disputes ≡ s.disputes)
unfolding settle_group
settle_group_over market changed currency group s h =
    let winners = winners_of changed group in
    let pool = bonds_in (losers_of changed group) in
    let pooled = record s { books = set_bond_pool market currency pool s.books } in
    let e =
      pay_bonds_over currency pool (bonds_in winners) winners pooled
        (keep-AreOver (λ (r : ℕ × Dispute). has_won changed r.1) group s.disputes h) in
    (ap (λ (x : Store). x.duels) e, ap (λ (x : Store). x.disputes) e)

settle_groups_over :
    (market : ℕ) (changed : Bool) (rows : Rows Dispute) (cs : List String) (s : Store)
    → AreOver rows s.disputes
    → (settle_groups market changed rows cs s).store.duels ≡ s.duels
unfolding settle_groups
settle_groups_over market changed rows [] s h = refl
settle_groups_over market changed rows (c ∷ cs) s h =
    let g = settle_group market changed c (group_of c rows) s in
    let (ledger, table) =
      settle_group_over market changed c (group_of c rows) s (
        keep-AreOver (λ (r : ℕ × Dispute). str_eq (currency_of r.1.currency) c) rows s.disputes
          h) in
    settle_groups_over market changed rows cs g.store (subst (AreOver rows) (sym table) h) ∙ ledger

-- A pass over the bonds that read no dispute which is still locked both in hand and in the table
-- changes no balance and no duel.
pub settle_contest_over :
    (market : ℕ) (proposed : Option ℕ) (winning : ℕ) (rows : Rows Dispute) (s : Store)
    → AreOver rows s.disputes
    → (settle_contest market proposed winning rows s).store.duels ≡ s.duels
unfolding settle_contest
settle_contest_over market proposed winning rows s h =
    settle_groups_over market (proposal_changed proposed winning) rows (distinct_currencies rows) s
      h

nothing_forfeited : (total : ℕ) (d : Dispute) → reward_share 0 total d ≡ 0
unfolding reward_share
nothing_forfeited total d = elim (Bool-cases (ltb 0 total)) [
  | inl some_bond ↦ rw some_bond (grind arith)
  | inr none_at_all ↦ rw none_at_all refl
]

-- The contest of one bond alone, on the side that was right.
alone :
    (market : ℕ) (proposed : Option ℕ) (winning key : ℕ) (d : Dispute) (s : Store)
    → has_won (proposal_changed proposed winning) d ≡ true
    → let p =
        pay_bond
          (currency_of d.currency)
          0
          (key, d)
          (record s { books = set_bond_pool market (currency_of d.currency) 0 s.books }) in
      ((settle_contest market proposed winning ((key, d) ∷ []) s).store.duels ≡ p.1.duels)
      × ((settle_contest market proposed winning ((key, d) ∷ []) s).store.disputes
          ≡ insert p.0.0 p.0.1 p.1.disputes)
unfolding settle_contest
alone market proposed winning key d s wins =
    rw (str_eq_refl (currency_of d.currency), wins, nothing_forfeited (d.bond_amount + 0) d)
      (refl, refl)

abbrev pass : ℕ → Option ℕ → ℕ → ℕ → Dispute → Store → Store
pass market proposed winning key d s =
    (settle_contest market proposed winning ((key, d) ∷ []) s).store

-- A pass that finds the bond locked in the table pays it.
pass_pays :
    (market : ℕ) (proposed : Option ℕ) (winning key : ℕ) (d : Dispute) (s : Store)
    → has_won (proposal_changed proposed winning) d ≡ true
    → is_locked d.bond_status ≡ true
    → lookup key s.disputes ≡ some d
    → (ledger_balance
          (pass market proposed winning key d s).duels.ledger
          d.user
          (currency_of d.currency)
        ≡ ledger_balance s.duels.ledger d.user (currency_of d.currency) +ℤ pos d.bond_amount)
      × (stored_locked key (pass market proposed winning key d s).disputes ≡ false)
unfolding pay_bond ledger_balance
pass_pays market proposed winning key d s wins locked there =
    let (ledger, table) = alone market proposed winning key d s wins in
    let paid = insert key (rewarded_dispute d 0) s.disputes in
    let now : lookup key (insert key (rewarded_dispute d 0) paid) ≡ some (rewarded_dispute d 0) =
      lookup-insert_self key (rewarded_dispute d 0) paid in
    let pooled = record s { books = set_bond_pool market (currency_of d.currency) 0 s.books } in
    let p = pay_bond (currency_of d.currency) 0 (key, d) pooled in
    let written : insert p.0.0 p.0.1 p.1.disputes ≡ insert key (rewarded_dispute d 0) paid =
      rw (locked, there, locked) refl in
    (
      rw (ledger, locked, there, locked, ==_refl d.user, str_eq_refl (currency_of d.currency))
          (omega int_laws),
      ap (stored_locked key) (table ∙ written) ∙ rw (stored_locked, now) refl,
    )

-- A pass that read the bond as locked, but finds it paid, saves what it read.
pass_stale :
    (market : ℕ) (proposed : Option ℕ) (winning key : ℕ) (d : Dispute) (s : Store)
    → has_won (proposal_changed proposed winning) d ≡ true
    → is_locked d.bond_status ≡ true
    → stored_locked key s.disputes ≡ false
    → ((pass market proposed winning key d s).duels ≡ s.duels)
      × (lookup key (pass market proposed winning key d s).disputes ≡ some d)
unfolding pay_bond
pass_stale market proposed winning key d s wins locked paid =
    let (ledger, table) = alone market proposed winning key d s wins in
    (rw (ledger, locked, paid) refl, rw (table, locked, paid) (lookup-insert_self key d s.disputes))

-- After a first pass has paid a lone winning bond, a pass that had read it as locked pays nothing
-- but writes it back as locked, and a third pass pays the bond a second time.
pub settle_contest_relocks :
    (market : ℕ) (proposed : Option ℕ) (winning key : ℕ) (d : Dispute) (s : Store)
    → has_won (proposal_changed proposed winning) d ≡ true
    → is_locked d.bond_status ≡ true
    → lookup key s.disputes ≡ some d
    → let s1 = pass market proposed winning key d s in
      let s2 = pass market proposed winning key d s1 in
      let s3 = pass market proposed winning key d s2 in
      (s2.duels ≡ s1.duels)
      × (lookup key s2.disputes ≡ some d)
      × (ledger_balance s3.duels.ledger d.user (currency_of d.currency)
          ≡ ledger_balance s.duels.ledger d.user (currency_of d.currency)
            +ℤ pos (d.bond_amount + d.bond_amount))
settle_contest_relocks market proposed winning key d s wins locked there =
    let s1 = pass market proposed winning key d s in
    let s2 = pass market proposed winning key d s1 in
    let (first, paid) = pass_pays market proposed winning key d s wins locked there in
    let (same, again) = pass_stale market proposed winning key d s1 wins locked paid in
    let (second, paid_again) = pass_pays market proposed winning key d s2 wins locked again in
    (same, again, rw (second, same, first) (omega int_laws))
