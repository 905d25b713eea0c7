-- ===== src/Models.antt =====
-- core/models.py: the domain types that the gateway, the Safety Gate and the trading modules share.
-- Messages are data, a constructor for each message with the values that it prints.
mod Types
mod Snapshot
mod ToOrder
pub use Types.*
pub use Snapshot.*
unfoldable pub use ToOrder.{unit_price, to_order}
