-- ===== src/Tests/Figures.antt =====
-- Tests of the health checks, of the days that shares are held, and of the monitor's chart.
use toss_invest_ai.Prelude.{
  ℕ, ◌*◌, ◌+◌, ◌-◌, map, false, none, some, List, [], ◌∷◌, ◌≡◌, refl, string_equality,
}
use toss_invest_ai.Prelude.Int.{pos, negsuc, ◌+ℤ◌, ◌-ℤ◌, ◌*ℤ◌, quotient}
use toss_invest_ai.Prelude.Sort.{sort_by, insert_sorted, take}
use toss_invest_ai.Float.Fixed.{Fixed, fixed, fixed_float}
use toss_invest_ai.Models.{kr, us, simulation, buy, sell, ok, TradeAction}
use toss_invest_ai.World.{
  World, SimulationTrade, PortfolioStatus, PortfolioSnapshot, temp_high, toss_unreachable,
}
use toss_invest_ai.Store.Rows.{TradeRow, get_today_trades}
use toss_invest_ai.Health.{
  Machine, in_maintenance, run_health_check, snapshot_of, check_thresholds, Checks,
  run_health_check-IsChecked,
}
use toss_invest_ai.MarketData.Holding.{
  matched_since, match_groups, match_trades, match_sale, group_by_symbol, append_to,
}
use toss_invest_ai.MarketData.Matched.{IsMatched, bought_qty, sold_qty, matched_since-IsMatched}
use toss_invest_ai.Monitor.Series.{daily_last_values, daily_last_from, bars_from_values, bars_after}
use toss_invest_ai.Monitor.Chart.{Benchmarks}
use toss_invest_ai.Monitor.Outcome.{Outcome}
use toss_invest_ai.Backtest.Replay.{Statistics}
use toss_invest_ai.Report.Summaries.{compute_timeline, trades_of}
use toss_invest_ai.Samples.{start, won, empty_tables}

-- Too warm, and the exchange is in maintenance.
abbrev warm : Machine Fixed
warm = record {
  metrics = λ w. ok (won 40, won 80, won 90);
  sensors = λ w. ok (some ([] ∷ (won 76 ∷ won 20 ∷ []) ∷ []));
  ping = λ w. in_maintenance "until 6:00";
}

run_health_check-IsChecked_example :
    Checks
      (warm.ping start)
      (warm.metrics start)
      (warm.sensors start)
      start
      (run_health_check warm start)
run_health_check-IsChecked_example = run_health_check-IsChecked warm start

warm_warnings :
    check_thresholds
      (snapshot_of start (won 40, won 80, won 90) (some ([] ∷ (won 76 ∷ won 20 ∷ []) ∷ [])) false)
    ≡ temp_high (won 76) ∷ toss_unreachable ∷ []
unfolding check_thresholds fixed_float ◌+ℤ◌ ◌-ℤ◌ ◌*ℤ◌ quotient
warm_warnings = refl

abbrev traded : TradeAction → ℕ → ℕ → TradeRow Fixed
traded action quantity day = record {
  symbol = "005930";
  market = kr;
  action = action;
  quantity = pos quantity;
  fill_price = won 100;
  pnl_krw = none;
  created_at = day * 86_400;
}

-- Ten shares, then five; twelve are sold, and then more than are left.
abbrev trades : List (TradeRow Fixed)
trades = traded buy 10 1 ∷ traded sell 12 4 ∷ traded buy 5 2 ∷ traded sell 7 6 ∷ []

-- 10 shares for 3 days, 2 for 2 days and 3 for 4 days.
matched_of_trades :
    matched_since none trades
    ≡ ok (record { total_weighted_days = won 46; total_matched_qty = pos 15 })
unfolding matched_since match_groups match_trades match_sale group_by_symbol append_to sort_by
    insert_sorted fixed_float ◌+ℤ◌ ◌-ℤ◌ ◌*ℤ◌ quotient
matched_of_trades = refl

matched_since-IsMatched_example :
    IsMatched 0
      (bought_qty trades)
      (sold_qty none trades)
      (record { total_weighted_days = won 46; total_matched_qty = pos 15 })
matched_since-IsMatched_example =
    matched_since-IsMatched none trades (refl, (refl, (refl, (refl, tt)))) matched_of_trades

abbrev status : PortfolioStatus Fixed
status = record {
  total_value_krw = pos 1_000_000;
  today_pnl_krw = pos 0;
  today_pnl_pct = won 0;
  cumulative_pnl_krw = pos 0;
  cumulative_pnl_pct = won 0;
  cash_buffer_krw = pos 150_000;
  cash_krw = pos 1_000_000;
  holdings = [];
}

abbrev valued : ℕ → ℕ → PortfolioSnapshot
valued day value = record {
  total_value_krw = pos value;
  cash_krw = pos 0;
  snapshot_at = day * 86_400;
}

abbrev snapshots : List PortfolioSnapshot
snapshots = valued 1 1_000 ∷ valued 2 1_100 ∷ valued 2 1_200 ∷ valued 3 1_050 ∷ []

abbrev benchmarks : Benchmarks Fixed
benchmarks = record { kr_returns = some (fixed (pos 100) ∷ []); us_returns = none }

-- The last value of each day, and the steps between them.
bars_of_days :
    bars_from_values (won 1_000 ∷ won 1_200 ∷ won 1_050 ∷ []) ≡ ok (pos 200 ∷ negsuc 149 ∷ [])
unfolding bars_from_values bars_after fixed_float ◌+ℤ◌ ◌-ℤ◌ ◌*ℤ◌ quotient
bars_of_days = refl

days_of_snapshots :
    daily_last_values snapshots ≡ (1, won 1_000) ∷ (2, won 1_200) ∷ (3, won 1_050) ∷ []
unfolding daily_last_from fixed_float ◌+ℤ◌ ◌-ℤ◌ ◌*ℤ◌ quotient
days_of_snapshots = refl

abbrev statistics : Statistics Fixed
statistics = record {
  mean = λ vs. won 0;
  pstdev = λ vs. won 1;
  root_of_252 = won 16;
  total = λ vs. won 0;
}

abbrev sold_at : ℕ → SimulationTrade Fixed
sold_at t = record {
  symbol = "005930";
  market = kr;
  action = sell;
  quantity = pos 1;
  fill_price = won 100;
  commission_krw = pos 0;
  pnl_krw = none;
  created_at = t;
}

-- The afternoon of a day, with a trade of the day before and two of the day.
abbrev afternoon : World Fixed
afternoon = record start {
  now = 20 * 86_400 + 50_000;
  database = record empty_tables {
    simulation_trades =
        sold_at (20 * 86_400 - 5) ∷ sold_at (20 * 86_400 + 100) ∷ sold_at (20 * 86_400 + 200) ∷ [];
  };
}

timeline_of_afternoon :
    map
      (λ (t : TradeRow Fixed). t.created_at)
      (compute_timeline (kr ∷ us ∷ []) simulation afternoon)
    ≡ (20 * 86_400 + 200) ∷ (20 * 86_400 + 100) ∷ []
unfolding compute_timeline trades_of get_today_trades sort_by insert_sorted take
timeline_of_afternoon = refl
