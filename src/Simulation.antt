-- ===== src/Simulation.antt =====
-- core/simulation/portfolio.py: the virtual portfolio, in memory and in the two simulation tables.
-- A portfolio that is changed is always the shared `_simulation_portfolio`, so a change writes
-- `memory`; one that `load` returns to another caller is only read.
mod Load
mod Apply
mod Value
pub mod InSync
unfoldable pub use Load.{load, load_positions, load_cash, replay_trade}
unfoldable pub use Apply.{
  apply_buy, apply_sell, bought, sold, upsert_position, delete_positions, same_market, row_of,
}
unfoldable pub use Value.{get_total_value, get_return_rate, position_value}
