-- ===== src/Streak/Snapshot.antt =====
-- What a bet does to the streak, day by day, and what the snapshot then shows
-- (src/users/streak.service.ts).
use oro_backend.Base.{
  ℕ, ◌+◌, ◌-◌, ◌≤◌, ◌≡◌, ◌≢◌, true, false, ◌&&◌, ◌==◌, some, leb, arith, if◌then◌else◌, ap, sym,
  ◌∙◌,
}
use oro_backend.Duel.{normalize_inventory}
use oro_backend.Streak.Update.{User, update_user, get_streak_info, day_of_cycle}

-- The row after a bet.
update_user_row :
    (u : User) (today : ℕ)
    → let r = update_user u today in
      (r.1.bet_streak_count ≡ r.0.new_streak)
      × (r.1.bet_streak_last_at ≡ some today)
      × (1 ≤ r.0.new_streak)
      × (r.0.day_in_cycle ≡ day_of_cycle r.0.new_streak)
unfolding update_user
update_user_row u today = ground arith

bet_again :
    (u : User) (today : ℕ)
    → u.bet_streak_last_at ≡ some today
    → 1 ≤ u.bet_streak_count
    → ((update_user u today).1 ≡ u)
      × ((update_user u today).0.boost_active ≡ false)
      × ((update_user u today).0.new_streak ≡ u.bet_streak_count)
unfolding update_user
bet_again u today e positive = ground arith

-- A second bet on the same day changes nothing and boosts nothing.
pub update_user_same_day :
    (u : User) (today : ℕ)
    → let r = update_user u today in
      ((update_user r.1 today).1 ≡ r.1)
      × ((update_user r.1 today).0.boost_active ≡ false)
      × ((update_user r.1 today).0.new_streak ≡ r.0.new_streak)
update_user_same_day u today =
    let r = update_user u today in
    let row = update_user_row u today in
    let again = bet_again r.1 today row.1 (omega arith) in (again.0, again.1, again.2 ∙ row.0)

used_after_bet :
    (u : User) (today : ℕ)
    → u.bet_streak_last_at ≢ some today
    → (update_user u today).0.day_in_cycle ≡ 7
    → (update_user u today).1.streak_boost_used ≡ true
unfolding update_user
used_after_bet u today fresh day = ground arith

info_of_row :
    (u : User) (today : ℕ)
    → u.bet_streak_last_at ≡ some today
    → 1 ≤ u.bet_streak_count
    → (day_of_cycle u.bet_streak_count ≡ 7 → u.streak_boost_used ≡ true)
    → let info = get_streak_info (some u) today in
      (info.bet_streak_count ≡ u.bet_streak_count)
      × (info.day_in_cycle ≡ day_of_cycle u.bet_streak_count)
      × (info.boost_ready ≡ false)
unfolding get_streak_info
info_of_row u today e positive used = ground arith

-- After the first bet of a day the snapshot shows the bet's streak and day, and never a boost as
-- ready.
pub get_streak_info-update_user :
    (u : User) (today : ℕ)
    → u.bet_streak_last_at ≢ some today
    → let r = update_user u today in
      let info = get_streak_info (some r.1) today in
      (info.bet_streak_count ≡ r.0.new_streak)
      × (info.day_in_cycle ≡ r.0.day_in_cycle)
      × (info.boost_ready ≡ false)
get_streak_info-update_user u today fresh =
    let r = update_user u today in
    let row = update_user_row u today in
    let days : day_of_cycle r.1.bet_streak_count ≡ r.0.day_in_cycle =
      ap day_of_cycle row.0 ∙ sym row.3 in
    let info =
      info_of_row r.1 today row.1 (omega arith)
        (λ d. used_after_bet u today fresh (sym days ∙ d)) in
    (info.0 ∙ row.0, info.1 ∙ days, info.2)

-- A bet one or more days after the last one carries the streak on after one day, or after two with
-- a shield to spend, and restarts it otherwise; one shield is spent in that second case only.
pub update_user_gap :
    (u : User) (last gap : ℕ)
    → u.bet_streak_last_at ≡ some last
    → 1 ≤ gap
    → let shields = (normalize_inventory u.card_inventory).shield_cards in
      let r = update_user u (last + gap) in
      let bridged = gap == 2 && leb 1 shields in
      (r.0.new_streak ≡ (
        if gap == 1 then u.bet_streak_count + 1 else if bridged then u.bet_streak_count + 1 else 1))
      × (r.0.shield_saved ≡ bridged)
      × ((normalize_inventory r.1.card_inventory).shield_cards
          ≡ (if bridged then shields - 1 else shields))
unfolding update_user
update_user_gap u last gap e later = ground arith
