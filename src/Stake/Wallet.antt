-- ===== src/Stake/Wallet.antt =====
-- Which currency a stake is in (src/shared/utils/wallet.util.ts). `toUpperCase` is a parameter.
use Prim.Native.String.{String}
use text.Mathlib.Text.{◌==◌ as str_eq}
use oro_backend.Base.{
  Bool, true, false, ◌||◌, Option, none, some, List, [], ◌∷◌, get_or, if◌then◌else◌,
}
use oro_backend.Ledger.{btn_currency}

-- The columns of a user that a stake reads.
pub record Account : Type 0 where
  pub currency : Option String
  pub is_kyc_approved : Bool
  pub has_dk_account : Bool
  pub has_phone : Bool

abbrev pub usdt : String
usdt = "USDT"

abbrev pub usdt_identity_verified : Account → Bool
usdt_identity_verified a = a.is_kyc_approved || a.has_dk_account

abbrev pub allowed_currencies : Account → List String
allowed_currencies a =
    if str_eq (get_or a.currency btn_currency) usdt
    then usdt ∷ []
    else if usdt_identity_verified a
    then btn_currency ∷ usdt ∷ []
    else btn_currency ∷ []

abbrev pub includes_currency : List String → String → Bool
includes_currency [] c = false
includes_currency (x ∷ xs) c =
    let rest = includes_currency xs c in if str_eq x c then true else rest

-- The currency, and whether the account may hold it. An empty text asks for nothing.
unfoldable pub resolve_wallet_currency : (String → String) → Account → Option String → String × Bool
resolve_wallet_currency to_upper_case a none = (get_or a.currency btn_currency, true)
resolve_wallet_currency to_upper_case a (some requested) =
    if str_eq requested "" then (get_or a.currency btn_currency, true) else (
      to_upper_case requested,
      includes_currency (allowed_currencies a) (to_upper_case requested),
    )
