-- ===== src/Trading/Executor.antt =====
-- core/trading/executor.py: a decision becomes an order, the Safety Gate decides on it, and it is
-- sent to the exchange (LIVE) or filled in the virtual portfolio (SIMULATION, DRY_RUN).
mod Records
mod Fill
mod Execute
pub mod Cases
pub mod Isolation
pub mod Guard
pub mod FillInSync
pub mod Portfolio
pub mod Restart
pub mod LiveLoss
unfoldable pub use Records.{
  handle_rejection, commission_krw, insert_order, insert_trade, insert_simulation_trade,
  append_trade_log,
}
unfoldable pub use Fill.{
  execute_live, execute_simulation, fill_in_portfolio, buy_in_portfolio, sell_in_portfolio,
  get_simulation_portfolio,
}
unfoldable pub use Execute.{execute, submit, refuse, run_approved}
pub use Fill.{Versions, Outcome}
