-- ===== src/Book/Again.antt =====
-- A market settled again (src/markets/parimutuel.engine.ts).
use Prim.Native.String.{String}
use text.Mathlib.Text.{◌==◌ as str_eq}
use oro_backend.Base.{
  ℕ, ◌≡◌, ◌≢◌, refl, sym, inl, inr, Bool, true, ◌&&◌, ◌==◌, some, List, [], ◌∷◌, ◌++◌, keep,
  Bool-cases, Option-cases, list_cases, All, arith, ==_iff,
}
use oro_backend.Base.Rows.{lookup, lookup-insert_self}
use oro_backend.Entities.{MarketStatus}
use oro_backend.Ledger.{btn_currency}
use oro_backend.Payout.{Rounding}
use oro_backend.Market.{btn_min_stake_for, Market, MarketBook, Settlement, Store}
use oro_backend.Book.Settle.{Config, Objector, find_settlement, bets_of_book, is_thin}
use oro_backend.Book.Close.{
  settle_book, settle_books, settle_market, settlements_of, books_of, btn_first, or_fresh,
  settle_locked, forfeit_in, objectors_in, set_status,
}
use oro_backend.Book.Branches.{settle_book_existing, settle_book_thin, settle_book_thick}
use oro_backend.Book.Once.{pay_book-settlements, refund-settlements, settle_book-settlements}

find_stays :
    (market : ℕ) (currency : String) (ts us : List Settlement) (t : Settlement)
    → find_settlement market currency ts ≡ some t
    → find_settlement market currency (ts ++ us) ≡ some t
find_stays market currency [] us t h = ground arith
find_stays market currency (x ∷ ts) us t h =
    elim (Bool-cases (x.market == market && str_eq x.currency currency)) [
      | inl here ↦ ground (arith, here, h)
      | inr there ↦ ground (arith, there, h, find_stays market currency ts us t)
    ]

-- A settlement that is found belongs to its market.
found_somewhere :
    (market : ℕ) (currency : String) (ts : List Settlement) (t : Settlement)
    → find_settlement market currency ts ≡ some t
    → keep (λ (x : Settlement). x.market == market) ts ≢ []
found_somewhere market currency [] t h = ground arith
found_somewhere market currency (x ∷ ts) t h = elim (Bool-cases (x.market == market)) [
  | inl here ↦ ground (arith, here)
  | inr there ↦ ground (arith, there, h, found_somewhere market currency ts t)
]

books_of-All :
    (market : ℕ) (books : List MarketBook)
    → All (λ (b : MarketBook). b.market ≡ market) (books_of market books)
books_of-All market [] = tt
books_of-All market (b ∷ books) = elim (Bool-cases (b.market == market)) [
  | inl here ↦ rw here ((==_iff b.market market).0 here, books_of-All market books)
  | inr there ↦ rw there (books_of-All market books)
]

keep-All {ℓ} :
    {A : Type ℓ} (P : A → Type 0) (p : A → Bool) (xs : List A) → All P xs → All P (keep p xs)
keep-All P p [] h = tt
keep-All P p (x ∷ xs) h = elim (Bool-cases (p x)) [
  | inl kept ↦ rw kept (h.0, keep-All P p xs h.1)
  | inr dropped ↦ rw dropped (keep-All P p xs h.1)
]

append-All {ℓ} :
    {A : Type ℓ} (P : A → Type 0) (xs ys : List A) → All P xs → All P ys → All P (xs ++ ys)
append-All P [] ys h k = k
append-All P (x ∷ xs) ys h k = (h.0, append-All P xs ys h.1 k)

module _ (r : Rounding) where
  settle_book_stays :
      (config : Config) (winner : ℕ) (book : MarketBook) (forfeit : ℕ) (os : List Objector)
      (s : Store) (market : ℕ) (currency : String) (t : Settlement)
      → find_settlement market currency s.settlements ≡ some t
      → find_settlement market currency
          (settle_book r config winner book forfeit os s).1.settlements
        ≡ some t
  settle_book_stays config winner book forfeit os s market currency t h =
      let bets = bets_of_book book.market book.currency s.bets in
      elim (Option-cases (find_settlement book.market book.currency s.settlements)) [
        | inr (t', settled) ↦
            rw (settle_book_existing r config winner book forfeit os s t' settled) h
        | inl fresh ↦ elim (Bool-cases (is_thin config.min_unique_bettors winner bets)) [
          | inl thin ↦
              let (e, m, c) = refund-settlements r winner book bets s in
              rw (settle_book_thin r config winner book forfeit os s fresh thin, e)
                (find_stays market currency s.settlements _ t h)
          | inr thick ↦
              let (e, m, c) = pay_book-settlements r config winner book forfeit os bets s in
              rw (settle_book_thick r config winner book forfeit os s fresh thick, e)
                (find_stays market currency s.settlements _ t h)
        ]
      ]

  settle_books_stays :
      (config : Config) (winner : ℕ) (forfeits : List (String × ℕ))
      (rewards : List (String × List Objector)) (books : List MarketBook) (s : Store) (market : ℕ)
      (currency : String) (t : Settlement)
      → find_settlement market currency s.settlements ≡ some t
      → find_settlement market currency
          (settle_books r config winner forfeits rewards books s).1.settlements
        ≡ some t
  unfolding settle_books
  settle_books_stays config winner forfeits rewards [] s market currency t h = h
  settle_books_stays config winner forfeits rewards (b ∷ books) s market currency t h =
      let forfeit = forfeit_in forfeits b.currency in
      let os = objectors_in rewards b.currency in
      settle_books_stays config winner forfeits rewards books
        (settle_book r config winner b forfeit os s).1 market currency t
        (settle_book_stays config winner b forfeit os s market currency t h)

  settle_books_leave :
      (config : Config) (market winner : ℕ) (forfeits : List (String × ℕ))
      (rewards : List (String × List Objector)) (books : List MarketBook) (s : Store)
      → All (λ (b : MarketBook). b.market ≡ market) books
      → books ≢ []
      → settlements_of market (settle_books r config winner forfeits rewards books s).1 ≢ []
  unfolding settle_books
  settle_books_leave config market winner forfeits rewards [] s all some_book =
      ground (arith, some_book refl)
  settle_books_leave config market winner forfeits rewards (b ∷ books) s all some_book =
      let forfeit = forfeit_in forfeits b.currency in
      let os = objectors_in rewards b.currency in
      let p = settle_book r config winner b forfeit os s in
      let there =
        settle_books_stays config winner forfeits rewards books p.1 b.market b.currency p.0
          (settle_book-settlements r config winner b forfeit os s) in
      rw (sym all.0) (found_somewhere b.market b.currency _ p.0 there)

  btn_first-nonempty : (b : MarketBook) (books : List MarketBook) → btn_first (b ∷ books) ≢ []
  btn_first-nonempty b books = elim (Bool-cases (str_eq b.currency btn_currency)) [
    | inl btn ↦ ground (arith, btn)
    | inr other ↦
        elim (list_cases (keep (λ (x : MarketBook). str_eq x.currency btn_currency) books)) [
          | inl e ↦ ground (arith, other, e)
          | inr (x, xs, e) ↦ ground (arith, other, e)
        ]
  ]

  btn_first-All :
      (market : ℕ) (books : List MarketBook)
      → All (λ (b : MarketBook). b.market ≡ market) books
      → All (λ (b : MarketBook). b.market ≡ market) (btn_first books)
  btn_first-All market books h =
      append-All (λ (b : MarketBook). b.market ≡ market) _ _
        (keep-All (λ (b : MarketBook). b.market ≡ market) _ books h)
        (keep-All (λ (b : MarketBook). b.market ≡ market) _ books h)

  -- What a settled market is to a later call.
  abbrev pub IsClosed : ℕ → Store → Type 0
  IsClosed market s =
      ((m : Market) × (lookup market s.markets ≡ some m)) × (settlements_of market s ≢ [])

  or_fresh-All :
      (market : ℕ) (fresh : MarketBook) (books : List MarketBook)
      → fresh.market ≡ market
      → All (λ (b : MarketBook). b.market ≡ market) books
      → All (λ (b : MarketBook). b.market ≡ market) (btn_first (or_fresh fresh books))
        × (btn_first (or_fresh fresh books) ≢ [])
  or_fresh-All market fresh [] h all =
      (btn_first-All market (fresh ∷ []) (h, tt), btn_first-nonempty fresh [])
  or_fresh-All market fresh (b ∷ books) h all =
      (btn_first-All market (b ∷ books) all, btn_first-nonempty b books)

  settle_locked_closes :
      (config : Config) (market winner : ℕ) (forfeits : List (String × ℕ))
      (rewards : List (String × List Objector)) (m : Market) (prior : List Settlement) (s : Store)
      → settlements_of market s ≡ prior
      → IsClosed market (settle_locked r config market winner forfeits rewards m prior s).2
  unfolding settle_locked
  settle_locked_closes config market winner forfeits rewards m (t ∷ ts) s h =
      ((_, lookup-insert_self market _ s.markets), rw h (ground arith))
  settle_locked_closes config market winner forfeits rewards m [] s h =
      let (all, some_book) =
        or_fresh-All market
          (record {
            market = market;
            currency = btn_currency;
            total_pool = m.total_pool;
            house_edge = m.house_edge;
            dispute_bond_pool = 0;
            min_stake = btn_min_stake_for m;
            is_enabled = true;
          })
          (books_of market s.books) refl (books_of-All market s.books) in
      (
        (_, lookup-insert_self market _ _),
        settle_books_leave config market winner forfeits rewards _ _ all some_book,
      )

  settle_locked_again :
      (config : Config) (market winner : ℕ) (forfeits : List (String × ℕ))
      (rewards : List (String × List Objector)) (m : Market) (prior : List Settlement) (s : Store)
      → prior ≢ []
      → settle_locked r config market winner forfeits rewards m prior s
        ≡ (true, prior, set_status market m MarketStatus.settled s)
  unfolding settle_locked
  settle_locked_again config market winner forfeits rewards m [] s h = ground (arith, h refl)
  settle_locked_again config market winner forfeits rewards m (t ∷ ts) s h = refl

  -- Once a market has been settled, a later settlement of it, with whatever winner and bonds,
  -- reports that it was already settled, returns the settlements that stand, and only writes the
  -- status again, into the row of the market as it is stored.
  pub settle_market_twice :
      (config config' : Config) (market winner winner' : ℕ) (forfeits forfeits' : List (String × ℕ))
      (rewards rewards' : List (String × List Objector)) (s s' : Store) (flag : Bool)
      (ts : List Settlement)
      → settle_market r config market winner forfeits rewards s ≡ some (flag, ts, s')
      → (m : Market) × (lookup market s'.markets ≡ some m)
        × (settle_market r config' market winner' forfeits' rewards' s'
            ≡ some (true, settlements_of market s', set_status market m MarketStatus.settled s'))
  unfolding settle_market
  settle_market_twice config config' market winner winner' forfeits forfeits' rewards rewards' s s'
        flag ts e =
      elim (Option-cases (lookup market s.markets)) [
        | inl unknown ↦ ground (arith, unknown, e)
        | inr (m, known) ↦
            let p =
              settle_locked r config market winner forfeits rewards m (settlements_of market s) s in
            let e' : p.2 ≡ s' = ground (arith, known, e) in
            let ((m', known'), prior) : IsClosed market s' = rw (sym e') (
              settle_locked_closes config market winner forfeits rewards m (settlements_of market s)
                s refl) in
            (
              m',
              known',
              rw
                  (
                    settle_market,
                    known',
                    settle_locked_again config' market winner' forfeits' rewards' m'
                        (settlements_of market s') s' prior,
                  )
                  refl,
            )
      ]
