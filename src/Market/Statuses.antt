-- ===== src/Market/Statuses.antt =====
-- What the status changes of a market allow (src/markets/parimutuel.engine.ts).
use oro_backend.Base.{
  ℕ, ◌+◌, ◌≤◌, ◌<◌, ◌≡◌, ◌≢◌, ◌⊎◌, inl, inr, Bool, true, false, none, some, arith, includes,
  Option-cases, ==_refl,
}
use oro_backend.Entities.{
  MarketStatus, upcoming, opened, closed, resolving, resolved, settled, cancelled,
}
use oro_backend.Market.State.{Market}
use oro_backend.Market.Lifecycle.{
  Error, ok, err, is_valid_transition, transition_market, window_of, propose_resolution,
  resolve_gate, window_still_open,
}

-- The order in which a market goes through its statuses.
abbrev pub rank : MarketStatus → ℕ
rank upcoming = 0
rank opened = 1
rank closed = 2
rank resolving = 3
rank resolved = 4
rank settled = 5
rank cancelled = 6

edge :
    (from to : MarketStatus)
    → ((is_valid_transition from to ≡ true)
        × (rank to ≡ 1 + rank from)
        × (to ≢ resolved)
        × (to ≢ cancelled))
      ⊎ (is_valid_transition from to ≡ false)
unfolding is_valid_transition
edge from to = ground arith

-- A bare transition that succeeds moves the market to the next status in the order, touches
-- nothing else, and never resolves or cancels it.
pub transition_market_next :
    (m m' : Market) (to : MarketStatus)
    → transition_market (some m) to ≡ ok m'
    → (rank m'.status ≡ 1 + rank m.status)
      × (m' ≡ (record m { status = to }))
      × (to ≢ resolved)
      × (to ≢ cancelled)
unfolding transition_market
transition_market_next m m' to h = elim (edge m.status to) [
  | inl next ↦ ground (arith, next)
  | inr forbidden ↦ ground (arith, forbidden)
]

-- The window opens for the chosen minutes.
pub window_of_bounds : (minutes : ℕ) → (10 ≤ window_of minutes) × (window_of minutes ≤ 120)
window_of_bounds minutes = ground arith

-- After a proposal, resolving without objections is refused in the first ten minutes, for every
-- outcome of the market.
pub resolve_gate-propose_resolution_early :
    (m m' : Market) (proposed minutes winning now later : ℕ) (has_settlement : Bool)
    → propose_resolution (some m) proposed minutes now ≡ ok m'
    → includes m.outcomes winning ≡ true
    → later < now + 600000
    → resolve_gate (some m') winning has_settlement 0 later ≡ err Error.window_open
unfolding propose_resolution resolve_gate
resolve_gate-propose_resolution_early m m' proposed minutes winning now later has_settlement h i l =
    ground (arith, window_of_bounds minutes)

-- What lets the gate of the resolution pass.
abbrev pub Passes : Market → ℕ → Bool → ℕ → ℕ → Type 0
Passes m winning has_settlement objections now =
    (includes m.outcomes winning ≡ true)
    × (((m.status ≡ resolving) × ((window_still_open m now ≡ false) ⊎ (0 < objections)))
        ⊎ ((m.status ≡ resolved) × (has_settlement ≡ false) × (m.resolved_outcome ≡ some winning)))

-- The gate of the resolution passes only for an outcome of the market, and either on a resolving
-- market whose window is over or that has objections, or on a market already resolved to that
-- outcome without a settlement; the market is then resolved to the outcome.
pub resolve_gate_passed :
    (m m' : Market) (winning : ℕ) (has_settlement : Bool) (objections now : ℕ)
    → resolve_gate (some m) winning has_settlement objections now ≡ ok m'
    → Passes m winning has_settlement objections now
      × (m' ≡ (record m { status = resolved; resolved_outcome = some winning }))
unfolding resolve_gate
resolve_gate_passed m m' winning has_settlement objections now h =
    elim (Option-cases m.dispute_deadline_at) [
      | inl no_window ↦ elim (Option-cases m.resolved_outcome) [
        | inl unresolved ↦ ground arith
        | inr (w, e) ↦ ground arith
      ]
      | inr (deadline, d) ↦ elim (Option-cases m.resolved_outcome) [
        | inl unresolved ↦ ground arith
        | inr (w, e) ↦ ground arith
      ]
    ]

-- A resolved market without a settlement can still be resolved again to its outcome, but once a
-- bare transition has made it settled, resolving it is refused whatever the outcome.
pub resolve_gate-transition_market_stranded :
    (m m' : Market) (w winning objections now : ℕ)
    → m.status ≡ resolved
    → m.resolved_outcome ≡ some w
    → includes m.outcomes w ≡ true
    → transition_market (some m) settled ≡ ok m'
    → (resolve_gate (some m) w false objections now ≡ ok m)
      × (resolve_gate (some m') winning false objections now ≡ err Error.not_resolving)
unfolding transition_market is_valid_transition resolve_gate
resolve_gate-transition_market_stranded m m' w winning objections now h o i t =
    ground (arith, ==_refl w)

-- A closed market without a deadline that a bare transition makes resolving is resolved at once to
-- any of its outcomes, with no proposal, no objection and no window.
pub resolve_gate-transition_market_unproposed :
    (m m' : Market) (winning now : ℕ) (has_settlement : Bool)
    → m.status ≡ closed
    → m.dispute_deadline_at ≡ none
    → includes m.outcomes winning ≡ true
    → transition_market (some m) resolving ≡ ok m'
    → resolve_gate (some m') winning has_settlement 0 now
      ≡ ok (record m { status = resolved; resolved_outcome = some winning })
unfolding transition_market is_valid_transition resolve_gate
resolve_gate-transition_market_unproposed m m' winning now has_settlement c d i h = ground arith
