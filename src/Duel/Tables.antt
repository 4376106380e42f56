-- ===== src/Duel/Tables.antt =====
-- The tables that the duel service works on, and its monad of state and exceptions.
use Prim.Native.String.{String}
use oro_backend.Base.{ℕ, Bool, Option, none, some, List, ◌∷◌, if◌then◌else◌}
use oro_backend.Base.Rows.{Rows}
use oro_backend.Entities.{MarketStatus, PositionStatus}
use oro_backend.Ledger.{Transaction}

pub data ChallengeStatus : Type 0 where
  opened active settled expired void : ChallengeStatus

pub data CardType : Type 0 where
  double_down shield ghost : CardType

pub record Challenge : Type 0 where
  pub creator : ℕ
  pub market : ℕ
  pub outcome : ℕ
  pub status : ChallengeStatus
  pub participant_count : ℕ
  pub wager_amount : ℕ
  pub joiner : Option ℕ
  pub winner : Option ℕ
  pub settled_at : Option ℕ
  pub equipped_card : Option CardType
  pub expires_at : ℕ

-- The JSON column: absent, the `[]` of an old default, or an object that may lack fields.
pub data RawInventory : Type 0 where
  null array : RawInventory
  object : Option ℕ → Option ℕ → Option ℕ → RawInventory

pub record Inventory : Type 0 where
  pub double_down_cards : ℕ
  pub shield_cards : ℕ
  pub ghost_cards : ℕ

pub record Position : Type 0 where
  pub user : ℕ
  pub market : ℕ
  pub status : PositionStatus

pub record Market : Type 0 where
  pub status : MarketStatus
  pub closes_at : ℕ

pub record User : Type 0 where
  pub currency : String
  pub card_inventory : RawInventory

-- A pending revenue distribution of a duel: the fee, the pot that it was taken from, the per cent.
pub record Distribution : Type 0 where
  pub challenge : ℕ
  pub amount : ℕ
  pub total_pot : ℕ
  pub fee_pct : ℕ

-- `next_challenge` is the key that the database gives to the next challenge.
pub record Store : Type 0 where
  pub users : Rows User
  pub markets : Rows Market
  pub positions : List Position
  pub challenges : Rows Challenge
  pub next_challenge : ℕ
  pub ledger : List Transaction
  pub distributions : List Distribution

pub data Error : Type 0 where
  negative_wager shield_not_equippable market_not_found market_not_open no_active_bet : Error
  duplicate_challenge user_not_found insufficient_balance challenge_not_found : Error
  challenge_expired challenge_not_open own_challenge : Error
  too_few_predictions : ℕ → Error
  card_missing : CardType → Error

pub data Result (A : Type 0) : Type 0 where
  ok : A → Result A
  err : Error → Result A

abbrev pub Action : Type 0 → Type 0
Action A = Store → Result A × Store

module _ {A : Type 0} where
  abbrev pub pure : A → Action A
  pure a s = (ok a, s)

  abbrev pub raise : Error → Action A
  raise e s = (err e, s)

  abbrev pub gets : (Store → A) → Action A
  gets f s = (ok (f s), s)

  abbrev pub or_raise : Option A → Error → Action A
  or_raise none e = raise e
  or_raise (some a) _ = pure a

  -- `dataSource.transaction(run)`: what raises leaves no trace.
  abbrev pub transaction : Action A → Action A
  transaction m s = let r = m s in elim r.0 [ ok a ↦ (ok a, r.1) | err e ↦ (err e, s) ]

infixl 5 ◌>>=◌ ◌>>◌
abbrev pub ◌>>=◌ : {A B : Type 0} → Action A → (A → Action B) → Action B
◌>>=◌ m f s = let r = m s in elim r.0 [ ok a ↦ f a r.1 | err e ↦ (err e, r.1) ]

abbrev pub ◌>>◌ : {A B : Type 0} → Action A → Action B → Action B
m >> k = m >>= λ _. k

abbrev pub raise_if : Bool → Error → Action (Unit {0})
raise_if c e s = (if c then err e else ok tt, s)

abbrev pub modify : (Store → Store) → Action (Unit {0})
modify f s = (ok tt, f s)

abbrev pub post : Transaction → Store → Store
post t s = record s { ledger = t ∷ s.ledger }
