-- ===== src/Tests/Backtests.antt =====
-- Tests of the backtest.
use toss_invest_ai.Prelude.{string_equality, Option, some, List, [], ◌∷◌, ◌≡◌, refl, arith}
use toss_invest_ai.Prelude.Int.{pos, negsuc, ◌+ℤ◌, ◌-ℤ◌, ◌*ℤ◌, quotient}
use toss_invest_ai.Float.Fixed.{Fixed, fixed, fixed_float}
use toss_invest_ai.Models.{kr, sell, ok, Result, Decision, StateSnapshot}
use toss_invest_ai.MarketData.Collector.{Source}
use toss_invest_ai.MarketData.Indicators.{
  calculate_volume_ratio, calculate_max_drawdown_pct, drawdown,
}
use toss_invest_ai.Backtest.Account.{follow}
use toss_invest_ai.Backtest.Replay.{Lane, Statistics, Course, replay, lanes_on, lane_on, values_on}
use toss_invest_ai.Backtest.Bounded.{IsBounded, replay-IsBounded}
use toss_invest_ai.Samples.{won, purchase}

abbrev silent_source : Source Fixed
silent_source = record {
  candles = λ s t w. ok [];
  news = λ s w. ok "";
  rsi = λ cs. won 20;
  macd = λ cs. (won 0, won 0);
  ema = λ cs n. won 0;
  bollinger = λ cs. (won 0, won 0);
}

abbrev sum_all : List Fixed → Fixed
sum_all [] = won 0
sum_all (v ∷ vs) = fixed (v.units +ℤ (sum_all vs).units)

abbrev statistics : Statistics Fixed
statistics = record {
  mean = λ vs. won 0;
  pstdev = λ vs. won 0;
  root_of_252 = won 16;
  total = sum_all;
}

-- A purchase while nothing is held, and a sale while something is.
abbrev in_and_out : StateSnapshot Fixed → Result (Option (Decision Fixed))
in_and_out state = elim state.holdings [
  | [] ↦ ok (some purchase)
  | _ ∷ _ ↦ ok (some (record purchase { action = sell }))
]

abbrev lane : Lane Fixed
lane = record {
  symbol = "005930";
  prices = won 100 ∷ won 100 ∷ won 150 ∷ [];
  volumes = won 1 ∷ won 1 ∷ won 1 ∷ [];
  account = record { cash = won 1_000; qty = pos 0; avg_price = won 0 };
}

-- Ten shares at 100, sold at 150 on the next day.
abbrev gain : Course silent_source statistics in_and_out kr
gain = record {
  lanes =
      record lane { account = record { cash = won 1_500; qty = pos 0; avg_price = won 0 } } ∷ [];
  trades = record { pnl = won 500; return_pct = fixed (pos 5_000) } ∷ [];
  equity_curve = won 1_000 ∷ won 1_500 ∷ [];
}

gained : replay silent_source statistics in_and_out kr 2 1 (lane ∷ []) ≡ ok gain
unfolding replay lanes_on lane_on values_on follow calculate_volume_ratio fixed_float quotient ◌+ℤ◌
    ◌-ℤ◌ ◌*ℤ◌
gained = refl

fallen :
    calculate_max_drawdown_pct (won 100 ∷ won 80 ∷ won 120 ∷ won 90 ∷ [])
    ≡ ok (fixed (negsuc 2_499))
unfolding calculate_max_drawdown_pct drawdown fixed_float quotient ◌+ℤ◌ ◌-ℤ◌ ◌*ℤ◌
fallen = refl

replay-IsBounded_example : IsBounded silent_source statistics in_and_out kr 2 (lane ∷ []) gain
replay-IsBounded_example =
    replay-IsBounded silent_source statistics in_and_out kr 2 1 (lane ∷ []) gain (omega arith, tt)
      gained
