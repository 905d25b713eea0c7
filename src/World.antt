-- ===== src/World.antt =====
-- The state that the trading core works on: the settings, the clock, the database, the portfolio
-- held in memory, and what was sent out: orders, log entries and published events. A handler is an
-- `Action`, a state-passing function whose state comes back after a raise too, since what was
-- written stays written. A read of the state, the database or the exchange is a `Query`.
mod Rows
mod Status
mod Core
mod Actions
pub mod Queries
mod External
pub use Rows.*
pub use Status.*
pub use Core.*
pub use Actions.*
pub use External.*
