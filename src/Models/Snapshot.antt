-- ===== src/Models/Snapshot.antt =====
-- `StateSnapshot` of core/models.py, with the values of its dictionaries, and the rows of the
-- calendar of events.
use toss_invest_ai.Prelude.{ℕ, String, Bool, Option, List}
use toss_invest_ai.Prelude.Int.{ℤ}
use toss_invest_ai.Models.Types.{Market, Mode, Quantity}

-- The data of one symbol; `none` is a missing key or Python's `None`.
pub record PriceData (F : Type 0) : Type 0 where
  pub price : Option F
  pub candles_15m : List F
  pub rsi_14 : Option F
  -- the value and the signal
  pub macd : Option (F × F)
  -- the upper and the lower band
  pub bollinger : Option (F × F)
  pub ema_20 : Option F
  pub ema_60 : Option F
  pub volume_ratio : Option F
  pub day_change_pct : Option F
  pub gap_pct : Option F
  pub day_open : Option F
  pub vi_triggered : Bool
  pub news_summary : String

pub record StateHolding (F : Type 0) : Type 0 where
  pub symbol : String
  pub quantity : Quantity F
  pub avg_price : F

-- A row of market_events.
pub record MarketEvent : Type 0 where
  pub market : Market
  pub event_at : ℕ
  pub is_high_risk : Bool

-- The figures of `portfolio`; its open orders are always empty.
pub record PortfolioFigures (F : Type 0) : Type 0 where
  pub total_value_krw : ℤ
  pub operating_funds_krw : F
  pub cash_buffer_krw : ℤ
  pub today_realized_pnl_krw : ℤ
  pub api_cost_month_krw : ℤ

pub record StateSnapshot (F : Type 0) : Type 0 where
  pub market : Market
  pub mode : Mode
  pub strategy_version : String
  pub prompt_version : String
  pub timestamp : ℕ
  pub exchange_rate_krw_usd : F
  pub prices : List (String × PriceData F)
  pub figures : PortfolioFigures F
  pub holdings : List (StateHolding F)
  pub toss_popular_top10 : List String
  pub fear_greed_index : Option ℤ
  pub market_events_today : List MarketEvent
