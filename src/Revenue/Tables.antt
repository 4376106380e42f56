-- ===== src/Revenue/Tables.antt =====
-- Rows of platform fees and what the bank answers (src/entities/revenue-distribution.entity.ts).
use Prim.Native.String.{String}
use oro_backend.Base.{ℕ, Bool, true, false, ◌&&◌, Option, List, is_none}
use oro_backend.Base.Rows.{Rows}

pub data DistributionStatus : Type 0 where
  pending completed failed : DistributionStatus

-- A handle that the bank issued, or one of the program's own that begins with `MANUAL-`.
pub data Reference : Type 0 where
  issued : ℕ → Reference
  manual manual_batch : ℕ → Reference

pub record Distribution : Type 0 where
  pub market : Option ℕ
  pub settlement : Option ℕ
  pub challenge : Option ℕ
  pub amount : ℕ
  pub house_forfeit : ℕ
  pub total_pool : ℕ
  pub currency : String
  pub public_account : Option ℕ
  pub status : DistributionStatus
  pub payment_reference : Option Reference
  pub paid_at : Option ℕ
  pub pending_transfer_ref : Option Reference

-- What came of a call: done, refused, nobody knows, or no answer at all.
pub data Fate : Type 0 where
  done refused unknown raised : Fate

pub record Call : Type 0 where
  pub account : ℕ
  pub amount : ℕ
  pub fate : Fate

pub record Store : Type 0 where
  pub distributions : Rows Distribution
  pub active_account : Option ℕ
  pub calls : List Call
  -- The amounts of held rows that the bank turned out to have refused.
  pub returned : List ℕ

-- The gateway's answer to a transfer, with the handles that it gives.
pub data TransferAnswer : Type 0 where
  success : Reference → TransferAnswer
  failure : TransferAnswer
  ambiguous : Option ℕ → TransferAnswer
  no_answer : TransferAnswer

pub data Verdict : Type 0 where
  pending success failed : Verdict

pub record Gateway : Type 0 where
  -- By account and amount.
  pub transfer_to_account : ℕ → ℕ → TransferAnswer
  -- By handle and account; `none` is a call that raised.
  pub check_transfer_status : ℕ → Option ℕ → Option (Verdict × Option Reference)

abbrev pub is_pending : DistributionStatus → Bool
is_pending DistributionStatus.pending = true
is_pending _ = false

abbrev pub is_completed : DistributionStatus → Bool
is_completed DistributionStatus.completed = true
is_completed _ = false

-- PENDING and with no transfer at the bank.
abbrev pub is_free : Distribution → Bool
is_free d = is_pending d.status && is_none d.pending_transfer_ref
