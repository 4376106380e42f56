-- ===== src/Crypto/Asking.antt =====
-- A request debits, or leaves the tables alone (src/payment/crypto-withdrawal.service.ts).
use oro_backend.Base.{ℕ, ◌≡◌, refl, ◌⊎◌, inl, inr, ◌==◌, List, Bool-cases, Option-cases, find}
use oro_backend.Base.Rows.{lookup}
use oro_backend.Usdt.{trim}
use oro_backend.Crypto.Tables.{IdempotencyKey, Destination, Store, Client, Config, Result, ok, err}
use oro_backend.Crypto.Addresses.{refuses_user, is_disabled, is_usable}
use oro_backend.Crypto.Request.{is_blank, parse_amount, debit, or_debit, has_request_id, request}

-- The store after a request, against the store before it.
abbrev pub Asked : ℕ → ℕ → IdempotencyKey → Store → Store → Type 0
Asked payer key id s s' =
    (s' ≡ s) ⊎ ((d : Destination) × (amount : ℕ) × (s' ≡ (debit payer key d amount id s).1))

or_debit_cases :
    (payer key : ℕ) (d : Destination) (id : IdempotencyKey) (s : Store) (r : Result ℕ)
    → Asked payer key id s (or_debit payer key d id s r).1
or_debit_cases payer key d id s (err e) = inl refl
or_debit_cases payer key d id s (ok amount) = elim (Bool-cases (is_blank id.client_request)) [
  | inl blank ↦ inl (rw (blank, or_debit) refl)
  | inr given ↦ elim (Option-cases (find (has_request_id id) s.withdrawals)) [
    | inr (r, known) ↦ inl (rw (given, known, or_debit) refl)
    | inl new ↦ inr (d, amount, rw (given, new, or_debit) refl)
  ]
]

pub request_cases :
    (cfg : Config) (client : Client) (payer key : ℕ) (amount id : List ℕ) (now : ℕ) (s : Store)
    → Asked payer key
        (record { user = payer; client_request = trim id })
        s
        (request cfg client payer key amount id now s).1
unfolding request
request_cases cfg client payer key amount id now s =
    let asked : IdempotencyKey = record { user = payer; client_request = trim id } in
    elim (Bool-cases client.enabled) [
      | inr off ↦ rw (off, request) (inl refl)
      | inl on ↦ elim (Option-cases (refuses_user payer s)) [
        | inr (e, refusal) ↦ rw (on, refusal, request) (inl refl)
        | inl welcome ↦ elim (Option-cases (lookup key s.destinations)) [
          | inl absent ↦ rw (on, welcome, absent, request) (inl refl)
          | inr (d, found) ↦
              rw (on, welcome, found, request)
                (elim (Bool-cases (d.user == payer)) [
                  | inr other ↦ rw other (inl refl)
                  | inl own ↦ elim (Bool-cases (is_disabled d.status)) [
                    | inl off ↦ rw (own, off) (inl refl)
                    | inr live ↦ elim (Bool-cases (is_usable cfg now d)) [
                      | inr cooling ↦ rw (own, live, cooling) (inl refl)
                      | inl usable ↦
                          rw (own, live, usable)
                            (or_debit_cases payer key d asked s (parse_amount cfg amount))
                    ]
                  ]
                ])
        ]
      ]
    ]
