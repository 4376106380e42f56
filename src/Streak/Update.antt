-- ===== src/Streak/Update.antt =====
-- `updateStreak` and `getStreakInfo` (src/users/streak.service.ts).
use oro_backend.Base.{
  ℕ, ◌+◌, ◌-◌, ◌%◌, Bool, true, false, not, ◌&&◌, ◌||◌, ◌==◌, Option, none, some, leb, holds_key,
  if◌then◌else◌,
}
use oro_backend.Duel.{RawInventory, Inventory, normalize_inventory, stored}

abbrev pub streak_bonus_day : ℕ
streak_bonus_day = 7

pub record User : Type 0 where
  pub bet_streak_count : ℕ
  pub bet_streak_last_at : Option ℕ
  pub streak_boost_used : Bool
  pub card_inventory : RawInventory

pub record StreakUpdateResult : Type 0 where
  pub new_streak : ℕ
  pub boost_active : Bool
  pub day_in_cycle : ℕ
  pub shield_saved : Bool

-- The variables that the branches on the last date assign.
pub record Progress : Type 0 where
  pub new_streak : ℕ
  pub boost_used : Bool
  pub inventory : Inventory
  pub inventory_changed : Bool

-- The flag is cleared when a new cycle begins.
abbrev next_day : User → Inventory → Bool → Progress
next_day u inventory changed =
    let n = u.bet_streak_count + 1 in
    record {
      new_streak = n;
      boost_used = if n % streak_bonus_day == 1 then false else u.streak_boost_used;
      inventory = inventory;
      inventory_changed = changed;
    }

abbrev restart : Inventory → Progress
restart inventory = record {
  new_streak = 1;
  boost_used = false;
  inventory = inventory;
  inventory_changed = false;
}

unfoldable pub progress : User → ℕ → Progress
unfolding normalize_inventory
progress u today =
    let inventory = normalize_inventory u.card_inventory in
    elim u.bet_streak_last_at [
      | none ↦ restart inventory
      | some last ↦
          if last == today
          then record {
            new_streak = if u.bet_streak_count == 0 then 1 else u.bet_streak_count;
            boost_used = u.streak_boost_used;
            inventory = inventory;
            inventory_changed = false;
          }
          else if last + 1 == today
          then next_day u inventory false
          else if last + 2 == today && leb 1 inventory.shield_cards
          then next_day u (record inventory { shield_cards = inventory.shield_cards - 1 }) true
          else restart inventory
    ]

abbrev pub day_of_cycle : ℕ → ℕ
day_of_cycle n = (n - 1) % streak_bonus_day + 1

abbrev same_flag : Bool → Bool → Bool
same_flag true b = b
same_flag false b = not b

-- The write happens only if one of the columns changes.
abbrev persist : User → Progress → Bool → ℕ → User
persist u p boost_used today =
    if not (u.bet_streak_count == p.new_streak)
      || not (holds_key u.bet_streak_last_at today)
      || not (same_flag u.streak_boost_used boost_used)
      || p.inventory_changed
    then record u {
      bet_streak_count = p.new_streak;
      bet_streak_last_at = some today;
      streak_boost_used = boost_used;
      card_inventory = if p.inventory_changed then stored p.inventory else u.card_inventory;
    }
    else u

unfoldable pub update_user : User → ℕ → StreakUpdateResult × User
unfolding progress
update_user u today =
    let p = progress u today in
    let day_in_cycle = day_of_cycle p.new_streak in
    let boost_active =
      day_in_cycle == streak_bonus_day
      && not p.boost_used
      && not (holds_key u.bet_streak_last_at today) in
    (
      record {
        new_streak = p.new_streak;
        boost_active = boost_active;
        day_in_cycle = day_in_cycle;
        shield_saved = p.inventory_changed;
      },
      persist u p (boost_active || p.boost_used) today,
    )

-- `none` is a user that is not found.
unfoldable pub update_streak : Option User → ℕ → StreakUpdateResult × Option User
unfolding update_user
update_streak none today =
    (record { new_streak = 1; boost_active = false; day_in_cycle = 1; shield_saved = false }, none)
update_streak (some u) today = let r = update_user u today in (r.0, some r.1)

pub record StreakInfo : Type 0 where
  pub bet_streak_count : ℕ
  pub day_in_cycle : ℕ
  pub next_boost_in_days : ℕ
  pub boost_ready : Bool

abbrev no_streak : StreakInfo
no_streak = record {
  bet_streak_count = 0;
  day_in_cycle = 0;
  next_boost_in_days = streak_bonus_day;
  boost_ready = false;
}

abbrev is_day_before : Option ℕ → ℕ → Bool
is_day_before none today = false
is_day_before (some last) today = last + 1 == today

unfoldable pub get_streak_info : Option User → ℕ → StreakInfo
get_streak_info none today = no_streak
get_streak_info (some u) today =
    let bet_today = holds_key u.bet_streak_last_at today in
    if bet_today || is_day_before u.bet_streak_last_at today
    then (let count = u.bet_streak_count in
        let day = if count == 0 then 0 else day_of_cycle count in
        record {
          bet_streak_count = count;
          day_in_cycle = day;
          next_boost_in_days = streak_bonus_day - day;
          boost_ready = day == streak_bonus_day && not u.streak_boost_used && bet_today;
        })
    else no_streak
