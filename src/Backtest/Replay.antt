-- ===== src/Backtest/Replay.antt =====
-- `BacktestEngine.run` of core/strategy/backtest.py: the days, and the symbols of a day.
use toss_invest_ai.Prelude.{
  ℕ, zero, suc, ◌-◌, String, false, Option, none, some, List, [], ◌∷◌, ◌++◌, if◌then◌else◌,
}
use toss_invest_ai.Prelude.Int.{pos, ltb_ℤ}
use toss_invest_ai.Prelude.Lists.{length}
use toss_invest_ai.Float.{Float, ◌⊕◌, ◌⊗◌, of_int, decimal}
use toss_invest_ai.Models.{
  Market, simulation, PriceData, shares, StateHolding, StateSnapshot, Decision, Result, ok, err,
  ◌>>=◌, index_error,
}
use toss_invest_ai.World.{BacktestFigures}
use toss_invest_ai.MarketData.Indicators.{calculate_volume_ratio}
use toss_invest_ai.MarketData.Collector.{Source}
use toss_invest_ai.MarketData.Snapshot.{take}
use toss_invest_ai.Backtest.Account.{Account, ClosedTrade, follow}

-- The closing prices and the volumes of a symbol, and its account.
pub record Lane (F : Type 0) : Type 0 where
  pub symbol : String
  pub prices : List F
  pub volumes : List F
  pub account : Account F

-- What the library `statistics` computes, and the root of 252.
pub record Statistics (F : Type 0) : Type 0 where
  pub mean : List F → F
  pub pstdev : List F → F
  pub root_of_252 : F
  -- `sum`
  pub total : List F → F

-- `xs[n]`
abbrev pub nth : {A : Type 0} → List A → ℕ → Result A
nth [] n = err index_error
nth (x ∷ xs) zero = ok x
nth (x ∷ xs) (suc n) = nth xs n

abbrev drop : {A : Type 0} → ℕ → List A → List A
drop zero xs = xs
drop (suc n) [] = []
drop (suc n) (x ∷ xs) = drop n xs

-- `xs[-n:]`
abbrev pub last : {A : Type 0} → ℕ → List A → List A
last n xs = drop (length xs - n) xs

abbrev pub listed : {A : Type 0} → Option A → List A
listed none = []
listed (some a) = a ∷ []

-- `_PERIOD_TRADING_DAYS`
pub data Period : Type 0 where
  one_year three_years five_years : Period

abbrev pub trading_days : Period → ℕ
trading_days one_year = 252
trading_days three_years = 756
trading_days five_years = 1_260

-- `_WARMUP_DAYS`
abbrev pub warmup_days : ℕ
warmup_days = 60

module _ {F : Type 0} ⦃f : Float F⦄ where
  abbrev pub zero_figures : BacktestFigures F
  zero_figures = record {
    win_rate = of_int (pos 0);
    avg_return = of_int (pos 0);
    mdd = of_int (pos 0);
    sharpe_ratio = of_int (pos 0);
    profit_factor = of_int (pos 0);
  }

  abbrev holdings_on : Lane F → List (StateHolding F)
  holdings_on l =
      if ltb_ℤ (pos 0) l.account.qty
      then record {
        symbol = l.symbol;
        quantity = shares l.account.qty;
        avg_price = l.account.avg_price;
      }
        ∷ []
      else []

  abbrev snapshot_on : Market → ℕ → Lane F → PriceData F → StateSnapshot F
  snapshot_on market n l p = record {
    market = market;
    mode = simulation;
    strategy_version = "v1.0.0";
    prompt_version = "backtest";
    timestamp = n;
    exchange_rate_krw_usd = decimal 10 1;
    prices = (l.symbol, p) ∷ [];
    figures = record {
      total_value_krw = pos 0;
      operating_funds_krw = of_int (pos 0);
      cash_buffer_krw = pos 0;
      today_realized_pnl_krw = pos 0;
      api_cost_month_krw = pos 0;
    };
    holdings = holdings_on l;
    toss_popular_top10 = [];
    fear_greed_index = none;
    market_events_today = [];
  }

module _ {F : Type 0} ⦃f : Float F⦄ (source : Source F) (stats : Statistics F)
    (generate_signal : StateSnapshot F → Result (Option (Decision F))) (market : Market) where
  abbrev indicators_on : F → List F → F → PriceData F
  indicators_on price window ratio = record {
    price = some price;
    candles_15m = [];
    rsi_14 = some (source.rsi window);
    macd = some (source.macd window);
    bollinger = some (source.bollinger window);
    ema_20 = some (source.ema window 20);
    ema_60 = some (source.ema window 60);
    volume_ratio = some ratio;
    day_change_pct = none;
    gap_pct = none;
    day_open = none;
    vi_triggered = false;
    news_summary = "";
  }

  -- The signal of the strategy for a symbol alone.
  abbrev pub signal_on : ℕ → Lane F → F → F → Result (Option (Decision F))
  signal_on n l price ratio =
      generate_signal (snapshot_on market n l (indicators_on price (take (suc n) l.prices) ratio))

  abbrev pub step_of : F → Lane F → Option (Decision F) → Result (Lane F × Option (ClosedTrade F))
  step_of price l signal = do
    (a, trade) ← follow price signal l.account
    ok (record l { account = a }, trade)

  -- One symbol on one day.
  unfoldable pub lane_on : ℕ → Lane F → Result (Lane F × Option (ClosedTrade F))
  lane_on n l = do
    price ← nth l.prices n
    today ← nth l.volumes n
    before ← nth l.volumes (n - 1)
    ratio ← calculate_volume_ratio today before
    signal ← signal_on n l price ratio
    step_of price l signal

  unfoldable pub lanes_on : ℕ → List (Lane F) → Result (List (Lane F) × List (ClosedTrade F))
  lanes_on n [] = ok ([], [])
  lanes_on n (l ∷ ls) = do
    (l', trade) ← lane_on n l
    (ls', trades) ← lanes_on n ls
    ok (l' ∷ ls', listed trade ++ trades)

  unfoldable pub values_on : ℕ → List (Lane F) → Result (List F)
  values_on n [] = ok []
  values_on n (l ∷ ls) = do
    price ← nth l.prices n
    vs ← values_on n ls
    ok ((l.account.cash ⊕ of_int l.account.qty ⊗ price) ∷ vs)

  -- What a replay comes to: the accounts, the closed trades and the value of each day.
  pub record Course : Type 0 where
    pub lanes : List (Lane F)
    pub trades : List (ClosedTrade F)
    pub equity_curve : List F

  -- So many days from this one on.
  unfoldable pub replay : ℕ → ℕ → List (Lane F) → Result Course
  replay zero n ls = ok (record { lanes = ls; trades = []; equity_curve = [] })
  replay (suc days) n ls = do
    (ls', trades) ← lanes_on n ls
    values ← values_on n ls'
    rest ← replay days (suc n) ls'
    ok (record {
      lanes = rest.lanes;
      trades = trades ++ rest.trades;
      equity_curve = stats.total values ∷ rest.equity_curve;
    })
