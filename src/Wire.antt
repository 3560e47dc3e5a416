-- ===== src/Wire.antt =====
-- common/order_protocol.h and common/market_protocol.h: the frames on the wire. Each file below
-- has one part: `put` and `get`, the enumerations and signed fields as bits, the two protocols.
pub mod Total
pub mod Bytes
pub mod Enums
pub mod Orders
pub mod Market
pub mod Validate
pub mod EnumLaws
pub mod OrderTrips
pub mod MarketTrips
mod Tests
