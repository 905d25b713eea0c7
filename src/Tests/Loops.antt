-- ===== src/Tests/Loops.antt =====
-- Tests of the passes of the trading loop.
use toss_invest_ai.Prelude.{
  arith, ℕ, zero, suc, string_equality, false, none, List, [], ◌∷◌, ◌≡◌, ◌≢◌, refl, inl, inr, ◌⊎◌,
}
use toss_invest_ai.Prelude.Int.{pos, ◌+ℤ◌, ◌-ℤ◌, ◌*ℤ◌, quotient}
use toss_invest_ai.Prelude.Dict.{lookup, insert}
use toss_invest_ai.Prelude.Lists.{length}
use toss_invest_ai.Float.Fixed.{Fixed, fixed_float}
use toss_invest_ai.Models.{kr, ok, err, Result, StateSnapshot, driver_error, api_timeout_error}
use toss_invest_ai.World.{World}
use toss_invest_ai.MarketData.Collector.{Source}
use toss_invest_ai.Gateway.Services.{Services}
use toss_invest_ai.Trading.Executor.Guard.{Untouched}
use toss_invest_ai.Trading.Loop.Pass.{Means, run_loop, is_stopped, get_events_today}
use toss_invest_ai.Trading.Loop.Guard.{IsChecked, run_loop-guarded}
use toss_invest_ai.Trading.Loop.EventDay.{RefusesEvents, run_loop-event_day}
use toss_invest_ai.Tests.Replies.{python, with_quantity}
use toss_invest_ai.Gateway.Json.{json_int}
use toss_invest_ai.Config.{run_mode}
use toss_invest_ai.MarketData.Indicators.{calculate_volume_ratio}
use toss_invest_ai.MarketData.Collector.{collect_symbol, collect_symbols, last_two}
use toss_invest_ai.MarketData.Snapshot.{
  collect_market_snapshot, popular_top10, by_ratio, fear_greed_index, changes,
}
use toss_invest_ai.MarketData.Watchlist.{get_watchlist, by_priority, placed_by_priority}
use toss_invest_ai.Improvement.Versions.{get_latest_deployed_strategy_version, newest}
use toss_invest_ai.Strategy.{
  rule_based_filter, make_decision, reversion_signal, by_symbol, rule_quantity,
}
use toss_invest_ai.Fund.Status.{get_portfolio_status, status_holdings}
use toss_invest_ai.Trading.Loop.Deciding.{decide}
use toss_invest_ai.Trading.Loop.Pass.{
  build_state_snapshot, prompt_version, record_decision, publish_status_update,
}
use toss_invest_ai.Safety.{
  check, check_flags, check_loss, check_ratio, check_sellable, check_amount, check_buffer,
  check_warnings, check_open, check_session, check_duplicate, check_event,
}
use toss_invest_ai.Store.{
  get_daily_loss, get_today_realized_pnl_krw, pnl_since, sum_simulation_trades_since,
  has_high_risk_event_today, order_id_exists, sum_costs_since, get_api_usage_month_krw,
}
use toss_invest_ai.Fund.{
  get_position_ratio, get_cash_buffer_krw, get_operating_funds_krw, get_position_value_krw,
  get_total_value_krw, get_holdings_value_krw, add_holdings, load_holdings_and_cash,
  virtual_holdings,
}
use toss_invest_ai.Simulation.{apply_buy, bought, upsert_position, load, load_positions, load_cash}
use toss_invest_ai.Trading.Executor.{
  execute, submit, refuse, execute_simulation, get_simulation_portfolio, buy_in_portfolio,
  commission_krw, handle_rejection,
}
use toss_invest_ai.Models.{to_order}
use toss_invest_ai.Samples.{start, exchange, won}

List-cases : {A : Type 0} (xs : List A) → (xs ≡ []) ⊎ ((y : A) × (ys : List A) × (xs ≡ y ∷ ys))
List-cases [] = inl refl
List-cases (y ∷ ys) = inr (y, ys, refl)

abbrev repeated : {A : Type 0} → ℕ → A → List A
repeated zero a = []
repeated (suc n) a = a ∷ repeated n a

-- Fifteen days at 10 000 won, with a relative strength of 20.
abbrev quiet : Source Fixed
quiet = record {
  candles =
      λ s t w. ok (repeated 15 (record { open_price = none; close = won 10_000; volume = none }));
  news = λ s w. ok "";
  rsi = λ cs. won 20;
  macd = λ cs. (won 0, won 0);
  ema = λ cs n. won 10_000;
  bollinger = λ cs. (won 0, won 0);
}

abbrev offline : Services Fixed
offline = record {
  read_prompt = λ name. ok "prompt";
  claude = λ prompt state w. err api_timeout_error;
  deepseek = λ prompt state w. err api_timeout_error;
  decision_id = λ w. "d4";
}

-- A driver that refuses a time in a JSON column.
abbrev json_column : StateSnapshot Fixed → Result (Unit {0})
json_column state = elim state.market_events_today [ [] ↦ ok tt | _ ∷ _ ↦ err driver_error ]

abbrev means : Means Fixed
means = record {
  source = quiet;
  services = offline;
  python = python (with_quantity (json_int (pos 2)));
  json_column = json_column;
}

abbrev watching : World Fixed
watching = record start {
  database = record start.database {
    watchlist = record { symbol = "005930"; market = kr; priority = pos 1 } ∷ [];
  };
}

abbrev event_day : World Fixed
event_day = record watching {
  database = record watching.database {
    market_events = record { market = kr; event_at = watching.now; is_high_risk = false } ∷ [];
  };
}

run_loop-guarded_example :
    IsChecked exchange means kr watching (run_loop exchange means kr watching).1
    ⊎ Untouched watching (run_loop exchange means kr watching).1
run_loop-guarded_example = run_loop-guarded exchange means kr watching

refuses : RefusesEvents exchange means kr
refuses state some_event = elim (List-cases state.market_events_today) [
  | inl empty ↦ let bad : ⊥ = some_event empty in elim bad [ ]
  | inr (e, es, known) ↦ (driver_error, ground (arith, known))
]

one_event : get_events_today kr event_day ≡ event_day.database.market_events
unfolding get_events_today
one_event = refl

has_event : get_events_today kr event_day ≢ []
has_event e = cc (e, one_event)

run_loop-event_day_example : Untouched event_day (run_loop exchange means kr event_day).1
run_loop-event_day_example = run_loop-event_day exchange means kr event_day refuses has_event

-- A pass buys five shares by the rule for a low strength, and notes the portfolio.
abbrev counts : World Fixed → ℕ × ℕ × ℕ
counts w = (
  length w.database.decisions,
  length w.database.simulation_trades,
  length w.database.simulation_portfolio_snapshots,
)

one_bought : counts (run_loop exchange means kr watching).1 ≡ (1, 1, 1)
unfolding execute submit refuse execute_simulation get_simulation_portfolio buy_in_portfolio
    commission_krw to_order apply_buy bought lookup insert upsert_position handle_rejection check
    check_flags check_loss check_ratio check_sellable check_amount check_buffer check_warnings
    check_open check_session check_duplicate check_event get_daily_loss get_today_realized_pnl_krw
    pnl_since sum_simulation_trades_since has_high_risk_event_today order_id_exists
    get_position_ratio get_cash_buffer_krw get_operating_funds_krw get_position_value_krw
    get_total_value_krw get_holdings_value_krw add_holdings load_holdings_and_cash virtual_holdings
    load load_positions load_cash fixed_float quotient ◌+ℤ◌ ◌-ℤ◌ ◌*ℤ◌ run_loop is_stopped run_mode
    build_state_snapshot collect_market_snapshot collect_symbols collect_symbol last_two
    popular_top10 by_ratio fear_greed_index changes get_watchlist by_priority placed_by_priority
    get_portfolio_status status_holdings get_api_usage_month_krw sum_costs_since get_events_today
    prompt_version get_latest_deployed_strategy_version newest decide rule_based_filter
    reversion_signal by_symbol rule_quantity record_decision publish_status_update
    calculate_volume_ratio make_decision
one_bought = refl
