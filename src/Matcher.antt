-- ===== src/Matcher.antt =====
-- exchange/matcher: the order book of one instrument.
-- `Book` holds the state, `Levels` and `Links` the two rings of pointers, `Fill` the matching loop,
-- `Requests` the three requests of a client; the other modules prove what these do.
pub mod Book
pub mod Levels
pub mod Links
pub mod Fill
pub mod Requests
pub mod Shape
pub mod RemoveLevel
pub mod Prices
pub mod Index
pub mod Unlinking
pub mod Cuts
pub mod RemoveOrder
pub mod RemoveLast
pub mod Removal
pub mod Spec
pub mod MatchStep
pub mod MatchOrder
pub mod Contents
pub mod BestOrder
pub mod Loop
pub mod Trades
mod Tests
