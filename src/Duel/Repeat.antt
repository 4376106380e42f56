-- ===== src/Duel/Repeat.antt =====
-- What `settleByMarket` leaves behind, and a second call (src/challenges/challenges.service.ts).
use oro_backend.Base.{
  ℕ, ◌==◌, ◌&&◌, ◌≡◌, refl, inl, inr, Bool, true, false, Option, none, some, [], ◌∷◌, arith,
  Bool-cases, Option-cases, if◌then◌else◌, ==_iff, ==_refl, ◌∙◌,
}
use oro_backend.Base.Rows.{Rows, lookup, UniqueKeys, insert-UniqueKeys}
use oro_backend.Duel.Tables.{Store, Challenge, CardType}
use oro_backend.Duel.Void.{is_live}
use oro_backend.Duel.Settle.{settle_one, settle_all, live_on, settle_by_market}
use oro_backend.Duel.Round.{final_row, settle_one_round}
use oro_backend.Duel.Settlement.{Pending, settle_one-Pending, settle_all-lookup}
use oro_backend.Duel.Closing.{IsConsistent, snapshot-UniqueKeys, snapshot-Pending}

abbrev is_selected : ℕ → Challenge → Bool
is_selected market c = c.market == market && is_live c.status

-- The row that stands under a key after the market's duels have been settled.
abbrev pub row_after : ℕ → Option ℕ → ℕ → Option Challenge → Option Challenge
row_after market winning now none = none
row_after market winning now (some c) =
    some (if c.market == market && is_live c.status then final_row winning now c else c)

abbrev selected : ℕ → Option Challenge → Option Challenge
selected market none = none
selected market (some c) = if is_selected market c then some c else none

-- One row more, with the tests as variables.
selected_step :
    (market j k : ℕ) (c : Challenge) (b : Bool) (rows : Rows Challenge)
    → is_selected market c ≡ b
    → lookup k rows ≡ none
    → lookup j (live_on market rows) ≡ selected market (lookup j rows)
    → lookup j (if b then (k, c) ∷ live_on market rows else live_on market rows)
      ≡ selected market (if j == k then some c else lookup j rows)
selected_step market j k c true rows sel absent ih = elim (Bool-cases (j == k)) [
  | inl here ↦ rw (here, sel)
  | inr there ↦ rw there ih
]
selected_step market j k c false rows sel absent ih = elim (Bool-cases (j == k)) [
  | inl here ↦ let e : j ≡ k = (==_iff j k).0 here in rw (here, sel) (ih ∙ rw (e, absent))
  | inr there ↦ rw there ih
]

lookup-live_on :
    (market j : ℕ) (rows : Rows Challenge)
    → UniqueKeys rows
    → lookup j (live_on market rows) ≡ selected market (lookup j rows)
unfolding live_on
lookup-live_on market j [] u = refl
lookup-live_on market j ((k, c) ∷ rows) u =
    selected_step market j k c (is_selected market c) rows refl u.0
      (lookup-live_on market j rows u.1)

live_on-nil :
    (market : ℕ) (rows : Rows Challenge)
    → UniqueKeys rows
    → ((k : ℕ) (c : Challenge) → lookup k rows ≡ some c → is_selected market c ≡ false)
    → live_on market rows ≡ []
unfolding live_on
live_on-nil market [] u none_selected = refl
live_on-nil market ((k, c) ∷ rows) u none_selected =
    rw (none_selected k c (ground (arith, ==_refl k)))
      (live_on-nil market rows u.1 (λ j d e. none_selected j d (ground arith)))

settle_all-UniqueKeys :
    (winning : Option ℕ) (now : ℕ) (draw : ℕ → CardType) (rows : Rows Challenge) (s : Store)
    → UniqueKeys rows
    → Pending s rows
    → UniqueKeys s.challenges
    → UniqueKeys (settle_all winning now draw rows s).challenges
unfolding settle_all
settle_all-UniqueKeys winning now draw [] s u p full = full
settle_all-UniqueKeys winning now draw ((k, c) ∷ rows) s u p full =
    settle_all-UniqueKeys winning now draw rows (settle_one winning now draw (k, c) s) u.1
      (settle_one-Pending winning now draw k c s rows p.0.0 p.0.1 u.0 p.1)
      (rw (settle_one_round winning now draw k c 0 s p.0.0 p.0.1).0
        (insert-UniqueKeys k (final_row winning now c) s.challenges full))

pub final_row_closed :
    (winning : Option ℕ) (now : ℕ) (c : Challenge)
    → is_live (final_row winning now c).status ≡ false
final_row_closed none now c = refl
final_row_closed (some winning) now c = ground arith

module _ (market : ℕ) (winning : Option ℕ) (now : ℕ) (draw : ℕ → CardType) (s : Store)
    (h : IsConsistent s) where
  -- When the duel tables are consistent, settling the duels of a market closes every live duel on
  -- it, as void or as settled with its winner, and leaves every other duel as it was.
  pub settle_by_market-lookup :
      (j : ℕ)
      → lookup j (settle_by_market market winning now draw s).challenges
        ≡ row_after market winning now (lookup j s.challenges)
  unfolding settle_by_market
  settle_by_market-lookup j =
      settle_all-lookup winning now draw j (live_on market s.challenges) s
        (snapshot-UniqueKeys market winning now draw s h)
        (snapshot-Pending market winning now draw s h)
      ∙ rw (lookup-live_on market j s.challenges h.unique_keys) (ground arith)

  settled-UniqueKeys : UniqueKeys (settle_by_market market winning now draw s).challenges
  unfolding settle_by_market
  settled-UniqueKeys =
      settle_all-UniqueKeys winning now draw (live_on market s.challenges) s
        (snapshot-UniqueKeys market winning now draw s h)
        (snapshot-Pending market winning now draw s h) h.unique_keys

  nothing_live :
      (k : ℕ) (c : Challenge)
      → lookup k (settle_by_market market winning now draw s).challenges ≡ some c
      → is_selected market c ≡ false
  nothing_live k c e = elim (Option-cases (lookup k s.challenges)) [
    | inl absent ↦ ground (arith, settle_by_market-lookup k)
    | inr (d, found) ↦ ground (arith, settle_by_market-lookup k, final_row_closed winning now d)
  ]

  -- When the duel tables are consistent, settling a market's duels a second time, with any
  -- outcome, changes nothing.
  pub settle_by_market_twice :
      (winning' : Option ℕ) (now' : ℕ) (draw' : ℕ → CardType)
      → let s' = settle_by_market market winning now draw s in
        settle_by_market market winning' now' draw' s' ≡ s'
  settle_by_market_twice winning' now' draw' =
      let s' = settle_by_market market winning now draw s in
      let e : live_on market s'.challenges ≡ [] =
        live_on-nil market s'.challenges settled-UniqueKeys nothing_live in
      unfold settle_by_market settle_all in rw e refl
