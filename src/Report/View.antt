-- ===== src/Report/View.antt =====
-- `_weekly_view` of core/report/generator.py: the figures of the week, with the settlement that it
-- makes and the row that it writes.
use toss_invest_ai.Prelude.{ℕ, ◌-◌, ◌*◌, Option, none, List, [], ◌∷◌, ◌++◌, map, leb}
use toss_invest_ai.Prelude.Lists.{length, keep}
use toss_invest_ai.Float.{Float, of_int}
use toss_invest_ai.Config.{run_mode}
use toss_invest_ai.Models.{Market, Mode, live}
use toss_invest_ai.World.{
  World, Exchange, Action, PortfolioStatus, PortfolioSnapshot, Report, Summary, ReportType,
  weekly_report, query, lift, pure, with_database, ◌>>=◌,
}
use toss_invest_ai.Store.{seconds_per_day}
use toss_invest_ai.Store.Rows.{
  get_all_trades, get_recent_live_snapshots, get_recent_simulation_snapshots,
}
use toss_invest_ai.Fund.{RebalanceResult, weekly_rebalance, get_operating_funds_krw}
use toss_invest_ai.Fund.Status.{get_portfolio_status}
use toss_invest_ai.MarketData.Indicators.{calculate_max_drawdown_pct}
use toss_invest_ai.Backtest.Replay.{Statistics}
use toss_invest_ai.Backtest.Figures.{calculate_sharpe_ratio}
use toss_invest_ai.Trading.Loop.Pass.{ledger}
use toss_invest_ai.Report.Weekly.{
  WeeklyMetrics, Direction, weekly_trade_metrics, next_week_direction,
}

pub record WeeklyView (F : Type 0) : Type 0 where
  pub portfolio : PortfolioStatus F
  pub rebalance : RebalanceResult
  pub metrics : WeeklyMetrics F
  pub mdd : F
  pub sharpe : F
  pub operating_funds : F
  pub direction : Direction

module _ {F : Type 0} where
  abbrev pub one_line_summary : Option Market → PortfolioStatus F → Summary F
  one_line_summary market portfolio = record {
    market = market;
    today_pnl_krw = portfolio.today_pnl_krw;
    cumulative_pnl_pct = portfolio.cumulative_pnl_pct;
    holdings = length portfolio.holdings;
  }

  abbrev pub report_row : Option Market → ReportType → PortfolioStatus F → World F → Report F
  report_row market report_type portfolio w = record {
    mode = run_mode w.settings;
    market = market;
    report_type = report_type;
    summary = one_line_summary market portfolio;
    created_at = w.now;
  }

  abbrev pub snapshots_of : Mode → World F → List PortfolioSnapshot
  snapshots_of live w = get_recent_live_snapshots 2_000 w
  snapshots_of _ w = get_recent_simulation_snapshots 2_000 w

  abbrev pub week_ago : World F → ℕ
  week_ago w = w.now - 7 * seconds_per_day

module _ {F : Type 0} ⦃f : Float F⦄ (x : Exchange F) (stats : Statistics F) where
  -- The values of the week.
  abbrev pub week_values : Mode → World F → List F
  week_values mode w =
      map (λ (s : PortfolioSnapshot). of_int s.total_value_krw)
        (keep (λ (s : PortfolioSnapshot). leb (week_ago w) s.snapshot_at) (snapshots_of mode w))

  abbrev pub view_after : Mode → PortfolioStatus F → RebalanceResult → Action F (WeeklyView F)
  view_after mode portfolio rebalance w =
      (do
        metrics ← lift (weekly_trade_metrics (get_all_trades mode w) (week_ago w))
        mdd ← lift (calculate_max_drawdown_pct (week_values mode w))
        sharpe ← lift (calculate_sharpe_ratio stats (week_values mode w))
        _ ← with_database (λ db. record db {
          reports = db.reports ++ (report_row none weekly_report portfolio w ∷ []);
        })
        funds ← query (get_operating_funds_krw x mode)
        pure (record {
          portfolio = portfolio;
          rebalance = rebalance;
          metrics = metrics;
          mdd = mdd;
          sharpe = sharpe;
          operating_funds = funds;
          direction = next_week_direction metrics mdd;
        }))
        w

  unfoldable pub weekly_view : Action F (WeeklyView F)
  weekly_view w =
      let mode = ledger (run_mode w.settings) in
      (do
        portfolio ← query (get_portfolio_status x mode none)
        rebalance ← weekly_rebalance x mode
        view_after mode portfolio rebalance)
        w
