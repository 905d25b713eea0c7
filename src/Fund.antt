-- ===== src/Fund.antt =====
-- core/fund/manager.py: holdings, cash and their value, the share of a symbol, the weekly
-- rebalancing, and the cost of the AI calls.
mod Holdings
mod Ratio
mod Rebalance
pub mod Conservation
pub mod Usage
pub mod Status
unfoldable pub use Holdings.{
  load_holdings_and_cash, get_position_value_krw, get_holdings_value_krw, get_total_value_krw,
  get_holding_quantity, find_holding, value_of, add_holdings, virtual_holdings, quantity_of,
}
unfoldable pub use Ratio.{
  get_cash_buffer_krw, get_operating_funds_krw, get_position_ratio, can_allocate,
}
pub use Ratio.{Allocation, allowed, no_operating_funds, above_cap}
unfoldable pub use Rebalance.{weekly_rebalance, split_profit, cap_buffer}
pub use Rebalance.{RebalanceResult, at_least_zero}
