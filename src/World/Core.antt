-- ===== src/World/Core.antt =====
-- The portfolio in memory (the fields of `SimulationPortfolio` in core/simulation/portfolio.py), the
-- entries of the logs, the published events, and the whole state.
use toss_invest_ai.Prelude.{ℕ, String, Option, List}
use toss_invest_ai.Prelude.Int.{ℤ}
use toss_invest_ai.Config.{Settings}
use toss_invest_ai.Models.{Market, Mode, TradeAction, Order, Reason, Rationale, OrderId}
use toss_invest_ai.World.Rows.{Database, StrategyVersion}
use toss_invest_ai.World.Status.{PortfolioStatus, HealthSnapshot, Warning}

pub record SimPosition (F : Type 0) : Type 0 where
  pub qty : ℤ
  pub avg_price : F
  pub market : Market

pub record SimulationPortfolio (F : Type 0) : Type 0 where
  pub cash : F
  pub positions : List (String × SimPosition F)

-- The values of an entry of the trade log.
pub record TradeLog (F : Type 0) : Type 0 where
  pub order : Order F
  pub mode : Mode
  pub fill_price : F
  pub order_id : Option OrderId
  pub commission_krw : ℤ
  pub realized_pnl_krw : Option F
  pub balance_change_krw : Option F
  pub reason : Rationale F
  pub decision_id : String
  pub strategy_version : String
  pub prompt_version : String

pub record RejectionLog (F : Type 0) : Type 0 where
  pub order : Order F
  pub mode : Mode
  pub reason : Reason F

pub record TradeExecuted (F : Type 0) : Type 0 where
  pub symbol : String
  pub action : TradeAction
  pub quantity : ℤ
  pub fill_price : F
  pub total_amount_krw : F
  pub commission_krw : ℤ
  pub pnl_krw : Option F
  pub avg_price : Option F
  pub balance_change_krw : Option F
  pub reason : Rationale F
  pub decision_id : String
  pub order_id : Option OrderId

pub data Payload (F : Type 0) : Type 0 where
  trade_executed : TradeExecuted F → Payload F
  safety_rejection : String → TradeAction → Reason F → Payload F
  -- the portfolio of the account, where it was asked for, and the virtual one
  status_update : Option (PortfolioStatus F) → PortfolioStatus F → Payload F
  -- a symbol and the summary of its news
  news_summary : String → String → Payload F
  version_candidate_ready : StrategyVersion F → Payload F
  reflection_ready : Market → String → Payload F
  health_alert : List (Warning F) → HealthSnapshot F → Payload F
  -- the alert of a request that the exchange refuses for maintenance: its path and the message
  maintenance_alert : String → String → Payload F

pub record Event (F : Type 0) : Type 0 where
  pub mode : Mode
  pub market : Option Market
  pub payload : Payload F
  pub published_at : ℕ

pub record World (F : Type 0) : Type 0 where
  pub settings : Settings F
  pub now : ℕ
  pub database : Database F
  -- `_simulation_portfolio` of core/trading/executor.py: `none` until it is first loaded
  pub memory : Option (SimulationPortfolio F)
  -- the orders sent to the exchange, the newest first; so for the logs and the events
  pub placed : List (Order F)
  pub trade_log : List (TradeLog F)
  pub rejection_log : List (RejectionLog F)
  pub events : List (Event F)
  -- the key health:latest of Redis
  pub health : Option (HealthSnapshot F)
