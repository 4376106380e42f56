-- ===== src/Crypto/Addresses.antt =====
-- Payout addresses: `addDestination`, `listDestinations` and the checks of an address
-- (src/payment/crypto-withdrawal.service.ts).
use Prim.Native.String.{String}
use text.Mathlib.Text.{◌==◌ as str_eq}
use oro_backend.Base.{
  ℕ, ◌+◌, Bool, true, false, not, ◌&&◌, ◌==◌, Option, none, some, [], ◌∷◌, leb, find, is_none,
  if◌then◌else◌,
}
use oro_backend.Base.Rows.{Rows, lookup, insert}
use oro_backend.Stake.{usdt_identity_verified}
use oro_backend.Crypto.Tables.{
  DestinationStatus, PayoutKind, Destination, Store, Error, not_enabled, user_not_found,
  usdt_not_allowed, unsupported_network, network_unavailable, bad_address, address_disabled,
  address_in_cooldown, address_not_registered, network_not_supported, provider_unreachable, Result,
  ok, err, Client, Config, is_customer_payout, is_crypto_network, is_hd_network,
}

-- `requireUsdtUser`: `none` is its success.
abbrev pub refuses_user : ℕ → Store → Option Error
refuses_user user s = elim (lookup user s.accounts) [
  | none ↦ some user_not_found
  | some a ↦ if usdt_identity_verified a then none else some usdt_not_allowed
]

abbrev pub is_disabled : DestinationStatus → Bool
is_disabled DestinationStatus.disabled = true
is_disabled _ = false

abbrev pub is_active : DestinationStatus → Bool
is_active DestinationStatus.active = true
is_active _ = false

abbrev pub is_cooling : DestinationStatus → Bool
is_cooling DestinationStatus.cooldown = true
is_cooling _ = false

unfoldable pub is_usable : Config → ℕ → Destination → Bool
is_usable cfg now d = if is_disabled d.status then false else elim d.usable_at [
  | some t ↦ leb t now
  | none ↦ if is_active d.status then true else leb (d.created_at + cfg.cooldown_ms) now
]

-- The unique index on user, network and address.
abbrev pub is_saved_as : ℕ → String → String → ℕ × Destination → Bool
is_saved_as user network address r =
    (r.1.user == user && str_eq r.1.network network) && str_eq r.1.address address

abbrev pub map_destination_status : Option DestinationStatus → DestinationStatus
map_destination_status none = DestinationStatus.cooldown
map_destination_status (some status) = status

abbrev pub or_later : Option ℕ → Option ℕ → Option ℕ
or_later (some t) _ = some t
or_later none other = other

abbrev pub save_destination : Destination → Store → Result ℕ × Store
save_destination d s = (
  ok s.next_destination,
  record s {
    destinations = insert s.next_destination d s.destinations;
    next_destination = s.next_destination + 1;
  },
)

abbrev pub new_destination :
    ℕ → String → String → Option String → ℕ → DestinationStatus → Option ℕ → Option ℕ → Destination
new_destination user network address label now status remote usable_at = record {
  user = user;
  pay21_destination = remote;
  network = network;
  address = address;
  label = label;
  status = status;
  usable_at = usable_at;
  created_at = now;
}

abbrev pub whitelist :
    Config → Client → ℕ → String → String → Option String → ℕ → Store → Result ℕ × Store
whitelist cfg client user network address label now s =
    if is_customer_payout cfg.payout_kind
    then (if is_hd_network network
        then save_destination
            (new_destination user network address label now DestinationStatus.cooldown none
              (some (now + cfg.cooldown_ms)))
            s
        else (err network_unavailable, s))
    else elim (client.create_withdrawal_destination network address) [
      | none ↦ (err provider_unreachable, s)
      | some r ↦
          save_destination
            (new_destination user network address label now (map_destination_status r.status)
              (some r.id) (or_later r.active_at r.usable_at))
            s
    ]

unfoldable pub add_destination :
    Config → Client → ℕ → String → String → Option String → ℕ → Store → Result ℕ × Store
add_destination cfg client user raw_network raw_address label now s =
    let network = cfg.to_lower_case raw_network in
    let address = cfg.trim_text raw_address in
    if not client.enabled then (err not_enabled, s) else elim (refuses_user user s) [
      | some e ↦ (err e, s)
      | none ↦
          if not (is_crypto_network network)
          then (err unsupported_network, s)
          else if not (client.is_network_enabled network)
          then (err network_unavailable, s)
          else if not (cfg.is_valid_address network address)
          then (err bad_address, s)
          else elim (find (is_saved_as user network address) s.destinations) [
            | some r ↦ (ok r.0, s)
            | none ↦ whitelist cfg client user network address label now s
          ]
    ]

abbrev pub end_cooldown : ℕ → ℕ → Destination → Destination
end_cooldown user now d = elim d.usable_at as (λ _. Destination) [
  | none ↦ d
  | some t ↦
      if (d.user == user && is_cooling d.status) && leb t now
      then record d { status = DestinationStatus.active }
      else d
]

abbrev pub end_cooldowns : ℕ → ℕ → Rows Destination → Rows Destination
end_cooldowns user now [] = []
end_cooldowns user now ((k, d) ∷ rows) =
    let rest = end_cooldowns user now rows in (k, end_cooldown user now d) ∷ rest

abbrev pub shown_as : Config → ℕ → Destination → Destination
shown_as cfg now d =
    if is_cooling d.status && is_usable cfg now d
    then record d { status = DestinationStatus.active }
    else d

-- The user's addresses as they are shown.
abbrev pub shown_rows : Config → ℕ → ℕ → Rows Destination → Rows Destination
shown_rows cfg user now [] = []
shown_rows cfg user now ((k, d) ∷ rows) =
    let rest = shown_rows cfg user now rows in
    if d.user == user then (k, shown_as cfg now d) ∷ rest else rest

-- By `createdAt`, newest first.
abbrev pub insert_newest : ℕ × Destination → Rows Destination → Rows Destination
insert_newest r [] = r ∷ []
insert_newest r (q ∷ rows) =
    let rest = insert_newest r rows in
    if leb q.1.created_at r.1.created_at then r ∷ q ∷ rows else q ∷ rest

abbrev pub newest_first : Rows Destination → Rows Destination
newest_first [] = []
newest_first (r ∷ rows) = insert_newest r (newest_first rows)

unfoldable pub list_destinations : Config → ℕ → ℕ → Store → Rows Destination × Store
unfolding is_usable
list_destinations cfg user now s =
    let s1 : Store = record s { destinations = end_cooldowns user now s.destinations } in
    (newest_first (shown_rows cfg user now s1.destinations), s1)

-- `assertSendable`: `none` is its success.
unfoldable pub refuses_payout : Config → ℕ → PayoutKind → Destination → Option Error
unfolding is_usable
refuses_payout cfg now kind d =
    if is_disabled d.status
    then some address_disabled
    else if not (is_usable cfg now d)
    then some address_in_cooldown
    else if not (cfg.is_valid_address d.network d.address)
    then some bad_address
    else if is_customer_payout kind
    then (if is_hd_network d.network then none else some network_not_supported)
    else if is_none d.pay21_destination
    then some address_not_registered
    else none
