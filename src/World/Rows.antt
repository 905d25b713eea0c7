-- ===== src/World/Rows.antt =====
-- The tables of core/db/models.py that the modelled modules write or read. A time is in seconds.
use toss_invest_ai.Prelude.{ℕ, String, Option, List}
use toss_invest_ai.Prelude.Int.{ℤ}
use toss_invest_ai.Models.{
  Market, Mode, TradeAction, Reason, Rationale, OrderId, MarketEvent, StateSnapshot,
}

pub record SimulationPosition (F : Type 0) : Type 0 where
  pub symbol : String
  pub market : Market
  pub quantity : ℤ
  pub avg_price : F

pub record SimulationTrade (F : Type 0) : Type 0 where
  pub symbol : String
  pub market : Market
  pub action : TradeAction
  pub quantity : ℤ
  pub fill_price : F
  pub commission_krw : ℤ
  pub pnl_krw : Option ℤ
  pub created_at : ℕ

pub record Trade (F : Type 0) : Type 0 where
  pub symbol : String
  pub market : Market
  pub action : TradeAction
  pub quantity : ℤ
  pub fill_price : F
  pub commission_krw : ℤ
  pub pnl_krw : Option ℤ
  pub decision_id : String
  pub order_id : Option OrderId
  pub created_at : ℕ

pub data OrderStatus : Type 0 where
  filled_order pending_order : OrderStatus

pub record OrderRow (F : Type 0) : Type 0 where
  pub client_order_id : String
  pub symbol : String
  pub market : Market
  pub action : TradeAction
  pub quantity : ℤ
  pub price : Option F
  pub status : OrderStatus
  pub created_at : ℕ

pub record SafetyRejection (F : Type 0) : Type 0 where
  pub symbol : String
  pub market : Market
  pub reason : Reason F
  pub mode : Mode
  pub created_at : ℕ

pub record FundRebalance : Type 0 where
  pub mode : Mode
  pub total_value_krw : ℤ
  pub api_cost_covered_krw : ℤ
  pub reinvested_krw : ℤ
  pub buffer_added_krw : ℤ
  pub created_at : ℕ

pub record ApiUsage (F : Type 0) : Type 0 where
  pub model : String
  pub cost_usd : F
  pub cost_krw : ℤ
  pub input_tokens : ℤ
  pub output_tokens : ℤ
  pub cache_read_tokens : ℤ
  pub cache_write_tokens : ℤ
  pub created_at : ℕ

-- The part of a decision that its row keeps.
pub record DecisionRow (F : Type 0) : Type 0 where
  pub decision_id : String
  pub mode : Mode
  pub market : Market
  pub strategy_version : String
  pub prompt_version : String
  pub model_used : String
  pub state_snapshot : StateSnapshot F
  pub action : TradeAction
  pub symbol : String
  pub quantity : ℤ
  pub reason : Rationale F
  pub confidence : F
  pub created_at : ℕ

-- A row of simulation_portfolio_snapshots or live_portfolio_snapshots.
pub record PortfolioSnapshot : Type 0 where
  pub total_value_krw : ℤ
  pub cash_krw : ℤ
  pub snapshot_at : ℕ

-- The figures of a backtest, as `backtest_result` keeps them.
pub record BacktestFigures (F : Type 0) : Type 0 where
  pub win_rate : F
  pub avg_return : F
  pub mdd : F
  pub sharpe_ratio : F
  pub profit_factor : F

pub record StrategyVersion (F : Type 0) : Type 0 where
  pub id : ℕ
  pub market : Market
  pub strategy_version : String
  pub prompt_version : String
  pub based_on : Option String
  pub change_summary : String
  pub backtest_result : Option (BacktestFigures F)
  pub approved_by : Option String
  pub proposed_at : ℕ
  pub deployed_at : Option ℕ

pub record Reflection : Type 0 where
  pub market : Market
  pub mode : Mode
  pub content_md : String
  pub proposed_change : Option String
  pub created_at : ℕ

pub record WatchlistItem : Type 0 where
  pub symbol : String
  pub market : Market
  pub priority : ℤ

-- `ReportType` of core/report/generator.py
pub data ReportType : Type 0 where
  pre_market_report midday_report close_report weekly_report on_demand_report : ReportType

-- The values that the line of a report is printed from.
pub record Summary (F : Type 0) : Type 0 where
  pub market : Option Market
  pub today_pnl_krw : ℤ
  pub cumulative_pnl_pct : F
  pub holdings : ℕ

pub record Report (F : Type 0) : Type 0 where
  pub mode : Mode
  -- `none` is ALL
  pub market : Option Market
  pub report_type : ReportType
  pub summary : Summary F
  pub created_at : ℕ

pub record PaperTrade : Type 0 where
  pub symbol : String
  pub strategy_version : String
  pub pnl_krw : Option ℤ
  pub created_at : ℕ

pub record Database (F : Type 0) : Type 0 where
  pub simulation_positions : List (SimulationPosition F)
  pub simulation_trades : List (SimulationTrade F)
  pub trades : List (Trade F)
  pub orders : List (OrderRow F)
  pub safety_rejections : List (SafetyRejection F)
  pub market_events : List MarketEvent
  pub fund_rebalances : List FundRebalance
  pub api_usage : List (ApiUsage F)
  pub decisions : List (DecisionRow F)
  pub simulation_portfolio_snapshots : List PortfolioSnapshot
  pub live_portfolio_snapshots : List PortfolioSnapshot
  pub strategy_versions : List (StrategyVersion F)
  pub reflections : List Reflection
  pub watchlist : List WatchlistItem
  pub reports : List (Report F)
  pub paper_trades : List PaperTrade
