-- ===== src/Tests/Passes.antt =====
-- Tests of the strategies and of the decision of a pass.
use toss_invest_ai.Prelude.{string_equality, true, false, none, some, [], ◌∷◌, ◌≡◌, refl, ◌⊎◌}
use toss_invest_ai.Prelude.Int.{pos, ◌+ℤ◌, ◌-ℤ◌, ◌*ℤ◌, quotient}
use toss_invest_ai.Prelude.Dict.{lookup}
use toss_invest_ai.Float.Fixed.{Fixed, fixed_float}
use toss_invest_ai.Models.{
  kr, simulation, buy, Decision, Result, ok, err, api_timeout_error, oversold,
}
use toss_invest_ai.Strategy.{
  StateSnapshot, rule_based_filter, reversion_signal, kr_momentum_signal, by_symbol, is_held,
  make_decision, get_decision, constrain_to_known_symbols, is_known,
}
use toss_invest_ai.Strategy.Known.{get_decision-is_known}
use toss_invest_ai.Samples.{won, purchase}

-- One symbol with a relative strength of so many and nothing else known but its price.
abbrev snapshot : Fixed → StateSnapshot Fixed
snapshot rsi = record {
  market = kr;
  mode = simulation;
  strategy_version = "v1.0.0";
  prompt_version = "system_kr_v1";
  prices =
      (
        "005930",
        record {
          price = some (won 10_000);
          candles_15m = [];
          macd = none;
          bollinger = none;
          day_change_pct = none;
          news_summary = "";
          rsi_14 = some rsi;
          ema_20 = none;
          ema_60 = none;
          volume_ratio = none;
          gap_pct = none;
          day_open = none;
          vi_triggered = false;
        },
      )
      ∷ [];
  holdings = [];
  timestamp = 0;
  exchange_rate_krw_usd = won 1_400;
  figures = record {
    total_value_krw = pos 0;
    operating_funds_krw = won 0;
    cash_buffer_krw = pos 0;
    today_realized_pnl_krw = pos 0;
    api_cost_month_krw = pos 0;
  };
  toss_popular_top10 = [];
  fear_greed_index = none;
  market_events_today = [];
}

-- Five shares at 10 000 won, as the strength is below 28.
abbrev rebound : Decision Fixed
rebound = make_decision "d2" "005930" buy (pos 5) (oversold (won 20))

-- The first service times out, and the second one buys the symbol of the snapshot.
abbrev silent : StateSnapshot Fixed → Result (Decision Fixed)
silent state = err api_timeout_error

abbrev replying : StateSnapshot Fixed → Result (Decision Fixed)
replying state = ok purchase

fallback_decides : get_decision "d2" silent replying (snapshot (won 50)) ≡ ok purchase
unfolding get_decision rule_based_filter reversion_signal kr_momentum_signal by_symbol lookup
    is_held constrain_to_known_symbols fixed_float quotient ◌+ℤ◌ ◌-ℤ◌ ◌*ℤ◌
fallback_decides = refl

get_decision-is_known_example :
    (rule_based_filter "d2" (snapshot (won 50)) ≡ ok (some purchase))
    ⊎ (is_known (snapshot (won 50)) purchase.symbol ≡ true)
get_decision-is_known_example =
    get_decision-is_known "d2" silent replying (snapshot (won 50)) purchase fallback_decides
      (λ h. cc)
