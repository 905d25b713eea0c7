-- ===== src/Store.antt =====
-- core/db/store.py and core/events/calendar.py: the queries on the tables that the trading core
-- makes. The day of the daily figures begins at midnight UTC; the day of an event is that of KST.
pub mod Rows
pub mod Usage
use toss_invest_ai.Prelude.{
  ℕ, ◌+◌, ◌-◌, ◌/◌, ◌%◌, ◌*◌, String, string_equality, Bool, ◌&&◌, Option, none, some, List, [],
  ◌∷◌, ◌==◌, leb, nat_eq, if◌then◌else◌,
}
use toss_invest_ai.Prelude.Int.{ℤ, pos, ◌+ℤ◌, ◌-ℤ◌, ltb_ℤ}
use toss_invest_ai.Prelude.Lists.{any}
use toss_invest_ai.Models.{MarketEvent, Mode, live, RunMode}
use toss_invest_ai.World.{World, Database, Trade, SimulationTrade, ApiUsage, OrderRow, Exchange}

abbrev pub seconds_per_day : ℕ
seconds_per_day = 86_400

-- Midnight UTC before a time.
abbrev pub today_start_utc : ℕ → ℕ
today_start_utc now = now - now % seconds_per_day

-- The day of a time in KST, which is nine hours ahead of UTC.
abbrev pub kst_date : ℕ → ℕ
kst_date t = (t + 32_400) / seconds_per_day

-- `pnl_krw or 0`
abbrev pub or_zero : Option ℤ → ℤ
or_zero none = pos 0
or_zero (some n) = n

module _ {F : Type 0} where
  unfoldable pub sum_trades_since : ℕ → List (Trade F) → ℤ
  sum_trades_since start [] = pos 0
  sum_trades_since start (t ∷ ts) =
      (if leb start t.created_at then or_zero t.pnl_krw else pos 0) +ℤ sum_trades_since start ts

  unfoldable pub sum_simulation_trades_since : ℕ → List (SimulationTrade F) → ℤ
  sum_simulation_trades_since start [] = pos 0
  sum_simulation_trades_since start (t ∷ ts) =
      (if leb start t.created_at then or_zero t.pnl_krw else pos 0)
      +ℤ sum_simulation_trades_since start ts

  -- `_trade_model_for_mode`: the real trades only in LIVE.
  unfoldable pub pnl_since : ℕ → Mode → Database F → ℤ
  pnl_since start live db = sum_trades_since start db.trades
  pnl_since start _ db = sum_simulation_trades_since start db.simulation_trades

  unfoldable pub get_today_realized_pnl_krw : Mode → World F → ℤ
  get_today_realized_pnl_krw mode w = pnl_since (today_start_utc w.now) mode w.database

  unfoldable pub get_daily_loss : RunMode → World F → ℤ
  get_daily_loss mode w =
      let total = get_today_realized_pnl_krw mode.mode w in
      if ltb_ℤ total (pos 0) then pos 0 -ℤ total else pos 0

  unfoldable pub get_weekly_net_profit_krw : Mode → World F → ℤ
  get_weekly_net_profit_krw mode w = pnl_since (w.now - 7 * seconds_per_day) mode w.database

  unfoldable pub order_id_exists : String → World F → Bool
  order_id_exists id w = any (λ (r : OrderRow F). r.client_order_id == id) w.database.orders

  unfoldable pub sum_costs_since : ℕ → List (ApiUsage F) → ℤ
  sum_costs_since start [] = pos 0
  sum_costs_since start (u ∷ us) =
      (if leb start u.created_at then u.cost_krw else pos 0) +ℤ sum_costs_since start us

  -- The first second of the month is the argument.
  unfoldable pub get_api_usage_month_krw : Exchange F → World F → ℤ
  get_api_usage_month_krw x w = sum_costs_since (x.month_start w.now) w.database.api_usage

  unfoldable pub has_high_risk_event_today : World F → Bool
  has_high_risk_event_today w =
      any (λ (e : MarketEvent). e.is_high_risk && nat_eq (kst_date e.event_at) (kst_date w.now))
        w.database.market_events
