-- ===== src/Duel/Cards.antt =====
-- Power cards: reading the inventory, spending one, and the awards at win milestones
-- (src/challenges/challenges.service.ts).
use oro_backend.Base.{
  ℕ, ◌-◌, ◌+◌, ◌%◌, Bool, true, false, ◌&&◌, ◌==◌, Option, none, some, ltb, get_or, holds_key,
  count_of, if◌then◌else◌,
}
use oro_backend.Base.Rows.{Rows, lookup, insert}
use oro_backend.Duel.Tables.{
  Store, Challenge, ChallengeStatus, CardType, double_down, shield, ghost, RawInventory, Inventory,
  Action, user_not_found, card_missing, gets, or_raise, raise_if, modify, ◌>>=◌, ◌>>◌,
}

unfoldable pub normalize_inventory : RawInventory → Inventory
normalize_inventory (RawInventory.object d s g) = record {
  double_down_cards = get_or d 0;
  shield_cards = get_or s 0;
  ghost_cards = get_or g 0;
}
normalize_inventory _ = record { double_down_cards = 0; shield_cards = 0; ghost_cards = 0 }

-- `inv[card]`, and `inv[card] = n`.
abbrev pub held : Inventory → CardType → ℕ
held inv double_down = inv.double_down_cards
held inv shield = inv.shield_cards
held inv ghost = inv.ghost_cards

abbrev pub set_held : Inventory → CardType → ℕ → Inventory
set_held inv double_down n = record inv { double_down_cards = n }
set_held inv shield n = record inv { shield_cards = n }
set_held inv ghost n = record inv { ghost_cards = n }

abbrev pub stored : Inventory → RawInventory
stored inv =
    RawInventory.object (some inv.double_down_cards) (some inv.shield_cards) (some inv.ghost_cards)

abbrev pub save_inventory : ℕ → Inventory → Store → Store
save_inventory user inv s = record s {
  users = elim (lookup user s.users) [
    | none ↦ s.users
    | some u ↦ insert user (record u { card_inventory = stored inv }) s.users
  ];
}

unfoldable pub consume_card : ℕ → CardType → Action (Unit {0})
unfolding normalize_inventory
consume_card user card = do
  u ← or_raise (← gets (λ s. lookup user s.users)) user_not_found
  let inv = normalize_inventory u.card_inventory
  raise_if (ltb (held inv card) 1) (card_missing card)
  modify (save_inventory user (set_held inv card (held inv card - 1)))

abbrev is_settled : ChallengeStatus → Bool
is_settled ChallengeStatus.settled = true
is_settled _ = false

-- The settled challenges that the user won.
unfoldable pub total_wins : Rows Challenge → ℕ → ℕ
total_wins rows user =
    count_of (λ (r : ℕ × Challenge). holds_key r.1.winner user && is_settled r.1.status) rows

-- The card of a milestone; `drawn` is the random card of the later ones.
unfoldable pub milestone_card : ℕ → CardType → Option CardType
milestone_card wins drawn =
    if wins == 3
    then some double_down
    else if wins == 7
    then some shield
    else if wins == 15
    then some ghost
    else if ltb 15 wins && (wins - 15) % 10 == 0
    then some drawn
    else none

unfoldable pub award_milestone_cards : ℕ → CardType → Store → Store
unfolding total_wins milestone_card normalize_inventory
award_milestone_cards user drawn s = elim (milestone_card (total_wins s.challenges user) drawn) [
  | none ↦ s
  | some card ↦ elim (lookup user s.users) [
    | none ↦ s
    | some u ↦
        let inv = normalize_inventory u.card_inventory in
        save_inventory user (set_held inv card (held inv card + 1)) s
  ]
]
