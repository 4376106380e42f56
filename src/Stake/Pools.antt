-- ===== src/Stake/Pools.antt =====
-- The pools of the books and the stakes (src/markets/parimutuel.engine.ts).
use Prim.Native.String.{String}
use text.Mathlib.Text.{◌==◌ as str_eq}
use text.Mathlib.TextEquality.{eq_iff}
use oro_backend.Base.{
  ℕ, ◌+◌, ◌≡◌, refl, sym, ap, ◌∙◌, inl, inr, true, false, ◌&&◌, ◌==◌, ==_iff, ==_refl, Option, none,
  some, List, [], ◌∷◌, ◌++◌, Bool-cases, Option-cases, if◌then◌else◌, arith,
}
use oro_backend.Base.Rows.{Rows, lookup, insert, lookup-insert}
use oro_backend.Ledger.{btn_currency}
use oro_backend.Ledger.Balance.{ledger_balance}
use oro_backend.Market.{Market, Bet, MarketBook}
use oro_backend.Book.{in_currency}
use oro_backend.Book.Money.{str_eq_refl}
use oro_backend.Stake.Place.{
  Desk, is_book, find_book, new_book, ensure_book, raise_pool, new_bet, is_bonus_stake,
  write_position,
}

-- All that was staked on a market in one currency.
abbrev pub staked_in : ℕ → String → Rows Bet → ℕ
staked_in market currency [] = 0
staked_in market currency (r ∷ bets) =
    let rest = staked_in market currency bets in
    if r.1.market == market && in_currency r.1.currency currency then r.1.amount + rest else rest

-- The pool of a book, or what a book that is not there yet would open with.
abbrev pub pool_of : ℕ → Market → String → List MarketBook → ℕ
pool_of market m currency books = elim (find_book market currency books) as (λ _. ℕ) [
  | some b ↦ b.total_pool
  | none ↦ if str_eq currency btn_currency then m.total_pool else 0
]

-- The pool of every book of every market is what was staked in it.
abbrev pub PoolsMatch : Desk → Type 0
PoolsMatch d =
    (market : ℕ) (m : Market) (currency : String)
    → lookup market d.store.markets ≡ some m
    → pool_of market m currency d.store.books ≡ staked_in market currency d.store.bets

same_book :
    (market : ℕ) (currency : String) (b : MarketBook) (k : ℕ) (c : String)
    → is_book market currency b ≡ true
    → is_book k c b ≡ (market == k && str_eq currency c)
same_book market currency b k c h =
    let e : b.market ≡ market = (==_iff b.market market).0 (ground (arith, h)) in
    let e' : b.currency ≡ currency = (eq_iff b.currency currency).0 (ground (arith, h)) in
    rw (e, e') refl

find-raise_pool :
    (market : ℕ) (currency : String) (amount : ℕ) (books : List MarketBook) (b : MarketBook)
    → find_book market currency books ≡ some b
    → find_book market currency (raise_pool market currency amount books)
      ≡ some (record b { total_pool = b.total_pool + amount })
find-raise_pool market currency amount [] b h = ground arith
find-raise_pool market currency amount (x ∷ books) b h =
    elim (Bool-cases (is_book market currency x)) [
      | inl here ↦ ground (arith, here, h)
      | inr there ↦ ground (arith, there, h, find-raise_pool market currency amount books b)
    ]

find-raise_pool_other :
    (market : ℕ) (currency : String) (amount : ℕ) (books : List MarketBook) (k : ℕ) (c : String)
    → (market == k && str_eq currency c) ≡ false
    → find_book k c (raise_pool market currency amount books) ≡ find_book k c books
find-raise_pool_other market currency amount [] k c h = refl
find-raise_pool_other market currency amount (x ∷ books) k c h =
    elim (Bool-cases (is_book market currency x)) [
      | inl here ↦
          let other : is_book k c x ≡ false = same_book market currency x k c here ∙ h in
          rw (here, other) refl
      | inr there ↦ rw (there, find-raise_pool_other market currency amount books k c h) refl
    ]

find-append :
    (k : ℕ) (c : String) (books : List MarketBook) (b : MarketBook)
    → find_book k c (books ++ (b ∷ [])) ≡ elim (find_book k c books) as (λ _. Option MarketBook) [
      | some x ↦ some x
      | none ↦ if is_book k c b then some b else none
    ]
find-append k c [] b = refl
find-append k c (x ∷ books) b = elim (Bool-cases (is_book k c x)) [
  | inl here ↦ rw here refl
  | inr there ↦ rw there (find-append k c books b)
]

unmatched :
    (o : Option MarketBook) (b : MarketBook) (k : ℕ) (c : String)
    → is_book k c b ≡ false
    → (elim o as (λ _. Option MarketBook) [
      | some x ↦ some x
      | none ↦ if is_book k c b then some b else none
    ])
      ≡ o
unmatched none b k c h = rw h refl
unmatched (some x) b k c h = refl

staked_in-insert :
    (key k : ℕ) (c : String) (b : Bet) (bets : Rows Bet)
    → lookup key bets ≡ none
    → staked_in k c (insert key b bets)
      ≡ staked_in k c bets + (if b.market == k && in_currency b.currency c then b.amount else 0)
staked_in-insert key k c b [] h = ground arith
staked_in-insert key k c b (r ∷ bets) h = elim (Bool-cases (key == r.0)) [
  | inl here ↦ ground (arith, here, h)
  | inr there ↦
      let absent : lookup key bets ≡ none = ground (arith, there, h) in
      rw there (ground (arith, staked_in-insert key k c b bets absent))
]

-- The book that a stake goes into is found, with the pool that stood for it.
ensure_book_found :
    (market : ℕ) (m : Market) (currency : String) (usdt : ℕ) (books : List MarketBook)
    → let e = ensure_book market m currency usdt books in
      (find_book market currency e.1 ≡ some e.0)
      × (e.0.total_pool ≡ pool_of market m currency books)
unfolding ensure_book
ensure_book_found market m currency usdt books =
    elim (Option-cases (find_book market currency books)) [
      | inr (b, found) ↦ rw (ensure_book, found) (found, rw (pool_of, found) refl)
      | inl absent ↦
          let mine : is_book market currency (new_book market m currency usdt) ≡ true =
            rw (==_refl market, str_eq_refl currency) refl in
          rw (ensure_book, absent)
            (
              find-append market currency books (new_book market m currency usdt)
                  ∙ rw (absent, mine) refl,
              rw (pool_of, absent) refl,
            )
    ]

ensure_book_other :
    (market : ℕ) (m : Market) (currency : String) (usdt : ℕ) (books : List MarketBook) (k : ℕ)
    (c : String)
    → (market == k && str_eq currency c) ≡ false
    → find_book k c (ensure_book market m currency usdt books).1 ≡ find_book k c books
unfolding ensure_book
ensure_book_other market m currency usdt books k c h =
    elim (Option-cases (find_book market currency books)) [
      | inr (b, found) ↦ rw (ensure_book, found) refl
      | inl absent ↦
          rw (ensure_book, absent)
            (find-append k c books (new_book market m currency usdt)
              ∙ unmatched (find_book k c books) (new_book market m currency usdt) k c h)
    ]

str_eq_flip : (a b : String) → str_eq a b ≡ false → str_eq b a ≡ false
str_eq_flip a b h = elim (Bool-cases (str_eq b a)) [
  | inr apart ↦ apart
  | inl same ↦ ground (arith, h, (eq_iff a b).1 (sym ((eq_iff b a).0 same)))
]

pool_of_agree :
    (k : ℕ) (m m' : Market) (c : String) (books books' : List MarketBook)
    → find_book k c books' ≡ find_book k c books
    → (if str_eq c btn_currency then m.total_pool else 0)
      ≡ (if str_eq c btn_currency then m'.total_pool else 0)
    → pool_of k m' c books' ≡ pool_of k m c books
pool_of_agree k m m' c books books' e opens = elim (Option-cases (find_book k c books)) [
  | inl absent ↦ rw (pool_of, e, absent) (sym opens)
  | inr (b, found) ↦ rw (pool_of, e, found) refl
]

-- The market as the mirror leaves it: another currency opens with nothing all the same.
mirrored :
    (market : ℕ) (m m' : Market) (currency : String) (pool k : ℕ) (c : String)
    (markets : Rows Market)
    → (market == k && str_eq currency c) ≡ false
    → lookup market markets ≡ some m
    → lookup k (
        if str_eq currency btn_currency
        then insert market (record m { total_pool = pool }) markets
        else markets)
      ≡ some m'
    → (m'' : Market) × (lookup k markets ≡ some m'')
      × ((if str_eq c btn_currency then m''.total_pool else 0)
          ≡ (if str_eq c btn_currency then m'.total_pool else 0))
mirrored market m m' currency pool k c markets other known h =
    elim (Bool-cases (str_eq currency btn_currency)) [
      | inr apart ↦ (m', ground (arith, apart, h), refl)
      | inl btn ↦
          let written = lookup-insert k market (record m { total_pool = pool }) markets in
          let h' : lookup k (insert market (record m { total_pool = pool }) markets) ≡ some m' =
            ground (arith, btn, h) in
          elim (Bool-cases (k == market)) [
            | inr elsewhere ↦ (m', ground (arith, elsewhere, written, h'), refl)
            | inl here ↦
                let e : k ≡ market = (==_iff k market).0 here in
                let e' : currency ≡ btn_currency = (eq_iff currency btn_currency).0 btn in
                let apart : str_eq btn_currency c ≡ false = ground (arith, e, e', other) in
                (m, rw e known, rw (str_eq_flip btn_currency c apart) refl)
          ]
    ]

pub write_position-PoolsMatch :
    (user market outcome amount usdt : ℕ) (m : Market) (currency : String) (d : Desk)
    → PoolsMatch d
    → lookup d.next_position d.store.bets ≡ none
    → lookup market d.store.markets ≡ some m
    → PoolsMatch (
        write_position user market outcome amount m currency
          (ensure_book market m currency usdt d.store.books)
          d)
unfolding write_position
write_position-PoolsMatch user market outcome amount usdt m currency d match fresh known k m' c h =
    let s = d.store in
    let b = ensure_book market m currency usdt s.books in
    let (found, opened) = ensure_book_found market m currency usdt s.books in
    let bonus = elim (lookup user s.bonuses) as (λ _. ℕ) [ none ↦ 0 | some b ↦ b.bonus_balance ] in
    let bet =
      new_bet user market outcome amount currency
        (is_bonus_stake currency amount bonus (ledger_balance s.duels.ledger user currency)) in
    elim (Bool-cases (market == k && str_eq currency c)) [
      | inl same ↦
          let e : k ≡ market = sym ((==_iff market k).0 (ground (arith, same))) in
          let e' : c ≡ currency = sym ((eq_iff currency c).0 (ground (arith, same))) in
          let raised = find-raise_pool market currency amount b.1 b.0 found in
          let pool : pool_of market m' currency (raise_pool market currency amount b.1)
              ≡ b.0.total_pool + amount =
            rw (pool_of, raised) refl in
          let staked =
            staked_in-insert d.next_position market currency bet s.bets fresh
            ∙ rw (==_refl market, str_eq_refl currency) refl in
          let before = match market m currency known in
          rw (e, e') (pool ∙ ap (λ (n : ℕ). n + amount) (opened ∙ before) ∙ sym staked)
      | inr other ↦
          let (m'', there, opens) =
            mirrored market m m' currency (b.0.total_pool + amount) k c s.markets other known h in
          let found_same =
            find-raise_pool_other market currency amount b.1 k c other
            ∙ ensure_book_other market m currency usdt s.books k c other in
          let staked : staked_in k c (insert d.next_position bet s.bets) ≡ staked_in k c s.bets =
            staked_in-insert d.next_position k c bet s.bets fresh ∙ rw other (omega arith) in
          pool_of_agree k m'' m' c s.books (raise_pool market currency amount b.1) found_same opens
          ∙ match k m'' c there
          ∙ sym staked
    ]
