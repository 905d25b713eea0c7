-- ===== src/Toss.antt =====
-- core/toss: the calls of the exchange.
pub mod Order
pub mod Link
pub mod Client
pub mod Slots
pub mod Sending
pub mod Ending
pub mod Spacing
pub mod Recovery
pub mod Calls
pub mod Market
pub mod Account
pub mod Orders
pub mod Lifetimes
pub mod Cache
pub mod Fresh
