-- ===== src/Store/Rows.antt =====
-- The lists of rows that core/db/store.py reads for the reports, the self-assessment and the monitor.
use toss_invest_ai.Prelude.{ℕ, String, Option, List, ◌&&◌, map, Bool, leb, ltb}
use toss_invest_ai.Prelude.Int.{ℤ}
use toss_invest_ai.Prelude.Lists.{keep}
use toss_invest_ai.Prelude.Sort.{sort_by, take, reversed}
use toss_invest_ai.Models.{Market, Mode, live, TradeAction}
use toss_invest_ai.World.{
  World, Database, Trade, SimulationTrade, SafetyRejection, PortfolioSnapshot,
}
use toss_invest_ai.Simulation.{same_market}
use toss_invest_ai.Store.{today_start_utc}

-- The columns that both tables of trades have.
pub record TradeRow (F : Type 0) : Type 0 where
  pub symbol : String
  pub market : Market
  pub action : TradeAction
  pub quantity : ℤ
  pub fill_price : F
  pub pnl_krw : Option ℤ
  pub created_at : ℕ

abbrev pub later_snapshot : PortfolioSnapshot → PortfolioSnapshot → Bool
later_snapshot s t = ltb t.snapshot_at s.snapshot_at

-- `fetch_all` from the newest on, and then the other way around.
abbrev pub recent_snapshots : ℕ → List PortfolioSnapshot → List PortfolioSnapshot
recent_snapshots limit rows = reversed (take limit (sort_by later_snapshot rows))

module _ {F : Type 0} where
  abbrev pub real_row : Trade F → TradeRow F
  real_row t = record {
    symbol = t.symbol;
    market = t.market;
    action = t.action;
    quantity = t.quantity;
    fill_price = t.fill_price;
    pnl_krw = t.pnl_krw;
    created_at = t.created_at;
  }

  abbrev pub virtual_row : SimulationTrade F → TradeRow F
  virtual_row t = record {
    symbol = t.symbol;
    market = t.market;
    action = t.action;
    quantity = t.quantity;
    fill_price = t.fill_price;
    pnl_krw = t.pnl_krw;
    created_at = t.created_at;
  }

  -- `_trade_model_for_mode`
  abbrev pub trades_for_mode : Mode → Database F → List (TradeRow F)
  trades_for_mode live db = map real_row db.trades
  trades_for_mode _ db = map virtual_row db.simulation_trades

  unfoldable pub get_today_trades : Mode → Market → World F → List (TradeRow F)
  get_today_trades mode market w =
      keep
        (λ (t : TradeRow F).
          same_market t.market market && leb (today_start_utc w.now) t.created_at)
        (trades_for_mode mode w.database)

  unfoldable pub get_today_rejections : Market → World F → List (SafetyRejection F)
  get_today_rejections market w =
      keep
        (λ (r : SafetyRejection F).
          same_market r.market market && leb (today_start_utc w.now) r.created_at)
        w.database.safety_rejections

  abbrev pub earlier : TradeRow F → TradeRow F → Bool
  earlier s t = ltb s.created_at t.created_at

  unfoldable pub get_all_trades : Mode → World F → List (TradeRow F)
  get_all_trades mode w = sort_by earlier (trades_for_mode mode w.database)

  unfoldable pub get_recent_simulation_snapshots : ℕ → World F → List PortfolioSnapshot
  get_recent_simulation_snapshots limit w =
      recent_snapshots limit w.database.simulation_portfolio_snapshots

  unfoldable pub get_recent_live_snapshots : ℕ → World F → List PortfolioSnapshot
  get_recent_live_snapshots limit w = recent_snapshots limit w.database.live_portfolio_snapshots
