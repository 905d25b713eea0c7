-- ===== src/Tests/Funds.antt =====
-- Tests of the cost record, of the reported figures and of manual orders.
use mathlib.Core.Path.{subst}
use toss_invest_ai.Prelude.{
  true, none, some, List, [], ◌∷◌, ◌++◌, ◌≡◌, refl, ap, sym, ◌∙◌, ◌⊎◌, arith,
}
use toss_invest_ai.Prelude.Lists.{All}
use toss_invest_ai.Prelude.Int.{pos, ◌+ℤ◌, ◌-ℤ◌, ◌*ℤ◌, quotient}
use toss_invest_ai.Float.Fixed.{Fixed, fixed_float}
use toss_invest_ai.Models.{simulation, buy, ok, ok_inj}
use toss_invest_ai.World.{PortfolioStatus, ApiUsage, Holding}
use toss_invest_ai.Store.{
  get_api_usage_month_krw, get_today_realized_pnl_krw, pnl_since, sum_simulation_trades_since,
}
use toss_invest_ai.Simulation.{load, load_positions, load_cash}
use toss_invest_ai.Fund.{get_total_value_krw, load_holdings_and_cash, virtual_holdings}
use toss_invest_ai.Fund.Usage.{Tokens, IsCharged, record_api_usage, record_api_usage-adds}
use toss_invest_ai.Fund.Status.{
  IsWhole, get_portfolio_status, status_holdings, get_portfolio_status-total,
}
use toss_invest_ai.Trading.Executor.Guard.{IsPermitted, Untouched}
use toss_invest_ai.Trading.ManualOrder.{
  OrderBody, Patterns, IsWellFormed, manual_versions, manual_decision, manual_mode,
  place_manual_order, place_manual_order-guarded,
}
use toss_invest_ai.Samples.{start, exchange, won}

abbrev tokens : Tokens
tokens = record {
  input_tokens = pos 1_000;
  output_tokens = pos 200;
  cache_read_tokens = pos 3_000;
  cache_write_tokens = pos 400;
}

usage_recorded : (record_api_usage exchange "claude" tokens start).0 ≡ ok tt
unfolding record_api_usage fixed_float quotient ◌+ℤ◌ ◌-ℤ◌ ◌*ℤ◌
usage_recorded = refl

-- One million won and no holdings.
abbrev cash_only : PortfolioStatus Fixed
cash_only = record {
  total_value_krw = pos 1_000_000;
  today_pnl_krw = pos 0;
  today_pnl_pct = won 0;
  cumulative_pnl_krw = pos 0;
  cumulative_pnl_pct = won 0;
  cash_buffer_krw = pos 150_000;
  cash_krw = pos 1_000_000;
  holdings = [];
}

cash_reported : get_portfolio_status exchange simulation none start ≡ ok cash_only
unfolding get_portfolio_status status_holdings load_holdings_and_cash virtual_holdings load
    load_positions load_cash get_today_realized_pnl_krw pnl_since sum_simulation_trades_since
    fixed_float quotient ◌+ℤ◌ ◌-ℤ◌ ◌*ℤ◌
cash_reported = refl

abbrev body : OrderBody Fixed
body = record { symbol = "005930"; quantity = pos 5; price = some (won 10_000) }

-- Every symbol is of digits.
abbrev patterns : Patterns
patterns = record { is_digits = λ s. true }

record_api_usage-adds_example :
    (u : ApiUsage Fixed) × ((record_api_usage exchange "claude" tokens start).1.database.api_usage
      ≡ [] ++ (u ∷ []))
    × IsCharged exchange "claude" tokens start u
    × (get_api_usage_month_krw exchange (record_api_usage exchange "claude" tokens start).1
        ≡ get_api_usage_month_krw exchange start +ℤ u.cost_krw)
record_api_usage-adds_example =
    record_api_usage-adds exchange "claude" tokens start (omega arith) usage_recorded

no_holdings : load_holdings_and_cash exchange simulation start ≡ ok ([], won 1_000_000)
unfolding load_holdings_and_cash virtual_holdings load load_positions load_cash fixed_float ◌*ℤ◌
no_holdings = refl

only_cash :
    (hs : List (Holding Fixed)) (cash : Fixed)
    → load_holdings_and_cash exchange simulation start ≡ ok (hs, cash)
    → All IsWhole hs
only_cash hs cash loaded =
    subst (All IsWhole) (ap (λ q. q.0) (ok_inj (sym no_holdings ∙ loaded))) tt

get_portfolio_status-total_example :
    (v : Fixed) × (get_total_value_krw exchange simulation start ≡ ok v)
    × (fixed_float.truncate v ≡ some (pos 1_000_000))
get_portfolio_status-total_example =
    get_portfolio_status-total exchange simulation none start only_cash cash_reported

place_manual_order-guarded_example :
    ((b : OrderBody Fixed) × (some body ≡ some b)
      × IsWellFormed b
      × IsPermitted exchange manual_versions
          (manual_decision "d3" buy b)
          (manual_mode patterns b start)
          start)
    ⊎ Untouched start (place_manual_order exchange patterns "d3" buy (some body) start).1
place_manual_order-guarded_example =
    place_manual_order-guarded exchange patterns "d3" buy (some body) start
