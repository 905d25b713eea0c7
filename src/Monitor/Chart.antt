-- ===== src/Monitor/Chart.antt =====
-- `_build_chart` of core/api/monitor_snapshot.py: the chart of gains and losses.
use toss_invest_ai.Prelude.{ℕ, Option, none, some, List, [], ◌∷◌, leb, ltb, if◌then◌else◌}
use toss_invest_ai.Prelude.Int.{ℤ, pos, ◌+ℤ◌}
use toss_invest_ai.Prelude.Lists.{length, keep}
use toss_invest_ai.Prelude.Sort.{take_last}
use toss_invest_ai.Float.{Float, ◌⊕◌, ◌⊗◌, of_int, equal}
use toss_invest_ai.Models.{Market, kr, us, Result, ok, ◌>>=◌}
use toss_invest_ai.World.{World, PortfolioSnapshot, PortfolioStatus, HoldingStatus}
use toss_invest_ai.Simulation.{same_market}
use toss_invest_ai.Store.Usage.{sum_ℤ, sum_float}
use toss_invest_ai.Monitor.Series.{
  Label, labels_from, values_at, sorted_keys, hourly_last_values_today, bars_from_values,
  win_rate_pct, avg_daily_return_pct, blended_benchmark_bars, quotient_of, is_up, is_down,
}

pub data PeriodName : Type 0 where
  whole_period last_15_days this_day : PeriodName

pub record Period (F : Type 0) : Type 0 where
  pub name : PeriodName
  pub bars : List ℤ
  pub x_labels : List Label
  pub avg_daily_return_pct : F
  pub win_rate_pct : ℤ
  pub benchmark_bars : List ℤ

pub record Chart (F : Type 0) : Type 0 where
  pub full : Period F
  pub recent : Period F
  pub hourly : Period F
  pub total_up_krw : ℤ
  pub up_days : ℕ
  pub total_down_krw : ℤ
  pub down_days : ℕ
  pub net_krw : ℤ

-- The returns of the benchmarks of both markets.
pub record Benchmarks (F : Type 0) : Type 0 where
  pub kr_returns : Option (List F)
  pub us_returns : Option (List F)

-- `xs[1:]`
abbrev pub rest_of : {A : Type 0} → List A → List A
rest_of [] = []
rest_of (x ∷ xs) = xs

module _ {F : Type 0} ⦃f : Float F⦄ where
  abbrev pub empty_period : PeriodName → Period F
  empty_period name = record {
    name = name;
    bars = [];
    x_labels = [];
    avg_daily_return_pct = of_int (pos 0);
    win_rate_pct = pos 0;
    benchmark_bars = [];
  }

  -- An hourly period has no benchmark: the weights and the base are those of a daily one.
  unfoldable pub build_chart_period :
      ℤ → PeriodName → List F → List ℕ → Option (Benchmarks F × (F × F) × F) → Result (Period F)
  build_chart_period seed name values keys daily = do
    bars ← bars_from_values values
    benchmark_bars ← elim daily [
      | none ↦ ok []
      | some (b, (kr_weight, us_weight), base) ↦
          blended_benchmark_bars (length bars) b.kr_returns b.us_returns kr_weight us_weight base
    ]
    average ← avg_daily_return_pct seed bars
    win_rate ← win_rate_pct F bars
    ok (record {
      name = name;
      bars = bars;
      x_labels = labels_from 0 (rest_of keys);
      avg_daily_return_pct = average;
      win_rate_pct = win_rate;
      benchmark_bars = benchmark_bars;
    })

  -- The value of the holdings of a market, in its currency.
  abbrev pub market_value : Market → List (HoldingStatus F) → F
  market_value market hs =
      sum_float (λ (h : HoldingStatus F). of_int h.quantity ⊗ h.current_price) (of_int (pos 0))
        (keep (λ (h : HoldingStatus F). same_market h.market market) hs)

  -- `(kr_value + us_value) or 1`
  abbrev pub or_one : F → F
  or_one v = if equal v (of_int (pos 0)) then of_int (pos 1) else v

  abbrev pub weights_of : List (HoldingStatus F) → Result (F × F)
  weights_of hs = do
    kr_weight ← quotient_of (market_value kr hs) (or_one (market_value kr hs ⊕ market_value us hs))
    us_weight ← quotient_of (market_value us hs) (or_one (market_value kr hs ⊕ market_value us hs))
    ok (kr_weight, us_weight)

  abbrev pub hourly_period : ℤ → List (ℕ × F) → List ℕ → Result (Period F)
  hourly_period seed hours keys =
      if leb 2 (length keys)
      then (values_at hours keys >>= λ values. build_chart_period seed this_day values keys none)
      else ok (empty_period this_day)

  abbrev pub short_chart : Period F → Chart F
  short_chart hourly = record {
    full = empty_period whole_period;
    recent = empty_period last_15_days;
    hourly = hourly;
    total_up_krw = pos 0;
    up_days = 0;
    total_down_krw = pos 0;
    down_days = 0;
    net_krw = pos 0;
  }

  abbrev pub chart_of : Period F → Period F → Period F → List ℤ → Chart F
  chart_of full recent hourly bars =
      let up = sum_ℤ (λ b. b) (keep is_up bars) in
      let down = sum_ℤ (λ b. b) (keep is_down bars) in
      record {
        full = full;
        recent = recent;
        hourly = hourly;
        total_up_krw = up;
        up_days = length (keep is_up bars);
        total_down_krw = down;
        down_days = length (keep is_down bars);
        net_krw = up +ℤ down;
      }

  -- A daily period over the last days, so many of them.
  abbrev pub daily_period :
      ℤ → PeriodName → ℕ → List (ℕ × F) → List ℕ → Benchmarks F × (F × F) × F → Result (Period F)
  daily_period seed name count daily_last days daily = do
    values ← values_at daily_last (take_last count days)
    build_chart_period seed name values (take_last count days) (some daily)

  abbrev pub long_chart :
      ℤ → PortfolioStatus F → List (ℕ × F) → List ℕ → Benchmarks F → Period F → Result (Chart F)
  long_chart seed portfolio daily_last days benchmarks hourly = do
    weights ← weights_of portfolio.holdings
    full ←
        daily_period seed whole_period 61 daily_last days
          (benchmarks, weights, of_int portfolio.total_value_krw)
    recent ←
        daily_period seed last_15_days 16 daily_last days
          (benchmarks, weights, of_int portfolio.total_value_krw)
    values ← values_at daily_last (take_last 61 days)
    bars ← bars_from_values values
    ok (chart_of full recent hourly bars)

  unfoldable pub build_chart :
      PortfolioStatus F
      → List PortfolioSnapshot
      → List (ℕ × F)
      → List ℕ
      → Benchmarks F
      → World F
      → Result (Chart F)
  build_chart portfolio snapshots daily_last days benchmarks w =
      let seed = w.settings.initial_seed_krw in
      let hours : List (ℕ × F) = hourly_last_values_today w.now snapshots in
      (hourly_period seed hours (sorted_keys hours) >>= λ hourly.
      if ltb (length days) 2
      then ok (short_chart hourly)
      else long_chart seed portfolio daily_last days benchmarks hourly)
