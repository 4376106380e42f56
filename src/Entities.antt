-- ===== src/Entities.antt =====
-- Enumerations of the stored rows that several services share
-- (src/entities/market.entity.ts, src/entities/position.entity.ts).
pub data MarketStatus : Type 0 where
  upcoming opened closed resolving resolved settled cancelled : MarketStatus

pub data PositionStatus : Type 0 where
  pending won lost refunded : PositionStatus
