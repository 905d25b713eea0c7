-- ===== src/Backtest/Figures.antt =====
-- `BacktestEngine.run` of core/strategy/backtest.py, from the candles to the figures, and Sharpe's
-- ratio of core/market_data/indicators.py.
use toss_invest_ai.Prelude.{
  ℕ, ◌+◌, ◌-◌, String, Option, none, some, List, [], ◌∷◌, map, leb, ltb, if◌then◌else◌,
}
use toss_invest_ai.Prelude.Int.{ℤ, pos}
use toss_invest_ai.Prelude.Lists.{length, keep}
use toss_invest_ai.Float.{Float, ◌⊖◌, ◌⊗◌, of_int, decimal, divide, less, equal}
use toss_invest_ai.Models.{
  Market, StateSnapshot, Decision, Result, ok, or_error, ◌>>=◌, zero_division_error,
}
use toss_invest_ai.World.{Query, BacktestFigures, WatchlistItem}
use toss_invest_ai.MarketData.Indicators.{calculate_max_drawdown_pct}
use toss_invest_ai.MarketData.Collector.{Source, Candle, closes, day}
use toss_invest_ai.MarketData.Watchlist.{get_watchlist}
use toss_invest_ai.Backtest.Account.{ClosedTrade}
use toss_invest_ai.Backtest.Replay.{
  Lane, Statistics, Period, trading_days, warmup_days, last, replay, Course, zero_figures,
}

module _ {F : Type 0} ⦃f : Float F⦄ (stats : Statistics F) where
  abbrev ratio : F → F → Result F
  ratio a b = or_error zero_division_error (divide a b)

  -- The return of each day after one with a positive value.
  unfoldable pub daily_returns : F → List F → Result (List F)
  daily_returns before [] = ok []
  daily_returns before (v ∷ vs) = do
    rest ← daily_returns v vs
    if less (of_int (pos 0)) before
        then (ratio (v ⊖ before) before >>= λ share. ok (share ∷ rest))
        else ok rest

  abbrev sharpe_of : List F → Result F
  sharpe_of rs =
      if ltb (length rs) 2
      then ok (of_int (pos 0))
      else (if equal (stats.pstdev rs) (of_int (pos 0))
          then ok (of_int (pos 0))
          else ratio (stats.mean rs) (stats.pstdev rs) >>= λ q. ok (q ⊗ stats.root_of_252))

  unfoldable pub calculate_sharpe_ratio : List F → Result F
  calculate_sharpe_ratio [] = ok (of_int (pos 0))
  calculate_sharpe_ratio (v ∷ []) = ok (of_int (pos 0))
  calculate_sharpe_ratio (v ∷ u ∷ vs) = daily_returns v (u ∷ vs) >>= sharpe_of

  abbrev pnls : List (ClosedTrade F) → List F
  pnls = map (λ (t : ClosedTrade F). t.pnl)

  abbrev wins : List (ClosedTrade F) → List (ClosedTrade F)
  wins = keep (λ (t : ClosedTrade F). less (of_int (pos 0)) t.pnl)

  abbrev losses : List (ClosedTrade F) → List (ClosedTrade F)
  losses = keep (λ (t : ClosedTrade F). less t.pnl (of_int (pos 0)))

  -- `abs(x)`
  abbrev absolute : F → F
  absolute v = if less v (of_int (pos 0)) then f.negate v else v

  abbrev factor : F → F → Result F
  factor profit loss =
      if less (of_int (pos 0)) loss
      then ratio profit loss
      else ok (if less (of_int (pos 0)) profit then decimal 9_990 1 else of_int (pos 0))

  unfoldable pub figures_of : List (ClosedTrade F) → F → F → Result (BacktestFigures F)
  figures_of [] mdd sharpe = ok (record zero_figures { mdd = mdd; sharpe_ratio = sharpe })
  figures_of (t ∷ ts) mdd sharpe = do
    profit_factor ←
        factor (stats.total (pnls (wins (t ∷ ts))))
          (absolute (stats.total (pnls (losses (t ∷ ts)))))
    win_rate ← ratio (of_int (pos (length (wins (t ∷ ts))))) (of_int (pos (length (t ∷ ts))))
    avg_return ←
        ratio (stats.total (map (λ (c : ClosedTrade F). c.return_pct) (t ∷ ts)))
          (of_int (pos (length (t ∷ ts))))
    ok (record {
      win_rate = win_rate;
      avg_return = avg_return;
      mdd = mdd;
      sharpe_ratio = sharpe;
      profit_factor = profit_factor;
    })

module _ {F : Type 0} ⦃f : Float F⦄ (source : Source F) (stats : Statistics F)
    (generate_signal : StateSnapshot F → Result (Option (Decision F))) (market : Market) where
  abbrev volumes_of : List (Candle F) → List F
  volumes_of = map (λ (c : Candle F). elim c.volume [ none ↦ of_int (pos 0) | some v ↦ v ])

  abbrev lane_of : String → ℕ → List (Candle F) → Lane F
  lane_of symbol days cs = record {
    symbol = symbol;
    prices = last days (closes cs);
    volumes = last days (volumes_of cs);
    account = record { cash = of_int (pos 0); qty = pos 0; avg_price = of_int (pos 0) };
  }

  -- The symbols with enough days.
  unfoldable pub lanes_of : ℕ → List WatchlistItem → Query F (List (Lane F))
  lanes_of days [] w = ok []
  lanes_of days (i ∷ is) w = do
    cs ← source.candles i.symbol day w
    rest ← lanes_of days is w
    ok (if leb (warmup_days + 2) (length cs) then lane_of i.symbol days cs ∷ rest else rest)

  -- `min` of the lengths, the first argument being the least so far.
  abbrev shortest : ℕ → List (Lane F) → ℕ
  shortest n [] = n
  shortest n (l ∷ ls) = shortest (if ltb (length l.prices) n then length l.prices else n) ls

  abbrev funded : F → List (Lane F) → List (Lane F)
  funded cash = map (λ (l : Lane F). record l { account = record l.account { cash = cash } })

  abbrev figures_after : Course source stats generate_signal market → Result (BacktestFigures F)
  figures_after c = do
    mdd ← calculate_max_drawdown_pct c.equity_curve
    sharpe ← calculate_sharpe_ratio stats c.equity_curve
    figures_of stats c.trades mdd sharpe

  abbrev backtest_of : ℤ → List (Lane F) → Result (BacktestFigures F)
  backtest_of capital [] = ok zero_figures
  backtest_of capital (l ∷ ls) = do
    cash ← or_error zero_division_error (divide (of_int capital) (of_int (pos (length (l ∷ ls)))))
    course ←
        replay source stats generate_signal market (shortest (length l.prices) ls - warmup_days)
          warmup_days (funded cash (l ∷ ls))
    figures_after course

  unfoldable pub run_backtest : Period → ℤ → Query F (BacktestFigures F)
  run_backtest period capital w = do
    lanes ← lanes_of (trading_days period) (get_watchlist (some market) w) w
    backtest_of capital lanes
