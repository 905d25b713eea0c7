-- ===== src/Tests.antt =====
-- Tests on concrete values, and the witnesses of the theorems.
mod Passes
mod Commands
mod Funds
mod Calls
mod Replies
mod Loops
mod Versions
mod Backtests
mod Quotes
mod Figures
use toss_invest_ai.Prelude.{string_equality, none, some, true, [], ◌∷◌, ◌≡◌, refl, ◌⊎◌, inl, ◌↔◌}
use toss_invest_ai.Prelude.Int.{ℤ, pos, ◌+ℤ◌, ◌-ℤ◌, ◌*ℤ◌, quotient}
use toss_invest_ai.Prelude.Dict.{lookup, insert}
use toss_invest_ai.Float.Fixed.{Fixed, fixed_float}
use toss_invest_ai.Models.{
  sell, virtual_id, rejected, kr, live, simulation, order_amount_exceeded, reject, approve,
  OrderResult, ok, to_order,
}
use toss_invest_ai.World.{World, SimulationPortfolio, SimPosition}
use toss_invest_ai.Safety.{
  check, check_flags, check_loss, check_ratio, check_sellable, check_amount, check_buffer,
  check_warnings, check_open, check_session, check_duplicate, check_event,
}
use toss_invest_ai.Store.{
  get_daily_loss, get_today_realized_pnl_krw, pnl_since, sum_simulation_trades_since,
  has_high_risk_event_today, order_id_exists, sum_trades_since, sum_costs_since,
  get_weekly_net_profit_krw, get_api_usage_month_krw,
}
use toss_invest_ai.Fund.{
  at_least_zero, RebalanceResult, weekly_rebalance, get_position_ratio, get_cash_buffer_krw,
  get_operating_funds_krw, get_position_value_krw, get_total_value_krw, get_holdings_value_krw,
  add_holdings, load_holdings_and_cash, virtual_holdings,
}
use toss_invest_ai.Safety.Approval.{Permits, check-approve_iff}
use toss_invest_ai.Simulation.InSync.{InSync}
use toss_invest_ai.Simulation.{apply_buy, bought, upsert_position, load, load_positions, load_cash}
use toss_invest_ai.Trading.Executor.{
  execute, submit, refuse, execute_simulation, get_simulation_portfolio, buy_in_portfolio,
  commission_krw, handle_rejection,
}
use toss_invest_ai.Trading.Executor.LiveLoss.{here, next, executed, Reach-get_daily_loss}
use toss_invest_ai.Fund.Conservation.{shared, recorded, weekly_rebalance-conserves}
use toss_invest_ai.Trading.Executor.Guard.{
  execute-guarded, execute-stopped, execute-filled, execute-refused, IsPermitted, Untouched,
  after_refusal,
}
use toss_invest_ai.Trading.Executor.Cases.{Orders}
use toss_invest_ai.Trading.Executor.Isolation.{
  execute-SameVirtual, execute-SameReal, execute-dry_run, SameVirtual, SameReal,
}
use toss_invest_ai.Trading.Executor.Restart.{execute-InSync, execute-reloads}
use toss_invest_ai.Samples.{
  empty_tables, start, exchange, won, purchase, large_purchase, order_of, live_kr, simulation_kr,
  dry_run_kr, versions,
}

abbrev portfolio : SimulationPortfolio Fixed
portfolio = record { cash = won 1_000_000; positions = [] }

in_step : InSync exchange start portfolio
unfolding load_cash fixed_float ◌*ℤ◌
in_step = record { held = inl refl; rows = refl; once = tt; positive = tt; cash = refl }

purchase_order : Orders exchange versions purchase simulation_kr start (order_of purchase 50_000)
unfolding to_order fixed_float quotient ◌*ℤ◌
purchase_order = (won 10_000, refl, refl)

large_order :
    Orders exchange versions large_purchase simulation_kr start (order_of large_purchase 500_000)
unfolding to_order fixed_float quotient ◌*ℤ◌
large_order = (won 10_000, refl, refl)

approved : check exchange (order_of purchase 50_000) simulation_kr start ≡ ok approve
unfolding check check_flags check_loss check_ratio check_sellable check_amount check_buffer
    check_warnings check_open check_session check_duplicate check_event get_daily_loss
    get_today_realized_pnl_krw pnl_since sum_simulation_trades_since has_high_risk_event_today
    order_id_exists get_position_ratio get_cash_buffer_krw get_operating_funds_krw
    get_position_value_krw get_total_value_krw get_holdings_value_krw add_holdings
    load_holdings_and_cash virtual_holdings load load_positions load_cash fixed_float quotient ◌+ℤ◌
    ◌-ℤ◌ ◌*ℤ◌
approved = refl

too_large :
    check exchange (order_of large_purchase 500_000) simulation_kr start
    ≡ ok (reject (order_amount_exceeded (pos 500_000)))
unfolding check check_flags check_loss check_ratio check_sellable check_amount check_buffer
    check_warnings check_open check_session check_duplicate check_event get_daily_loss
    get_today_realized_pnl_krw pnl_since sum_simulation_trades_since has_high_risk_event_today
    order_id_exists get_position_ratio get_cash_buffer_krw get_operating_funds_krw
    get_position_value_krw get_total_value_krw get_holdings_value_krw add_holdings
    load_holdings_and_cash virtual_holdings load load_positions load_cash fixed_float quotient ◌+ℤ◌
    ◌-ℤ◌ ◌*ℤ◌
too_large = refl

-- What a purchase of five shares reports.
abbrev bought_result : OrderResult Fixed
bought_result = record {
  filled = true;
  order_id = some (virtual_id simulation 11 kr "0123ab");
  fill_price = some (won 10_000);
  reason = none;
}

purchase_filled : (execute exchange purchase simulation_kr versions start).0 ≡ ok bought_result
unfolding execute submit refuse execute_simulation get_simulation_portfolio buy_in_portfolio
    commission_krw to_order apply_buy bought lookup insert upsert_position handle_rejection check
    check_flags check_loss check_ratio check_sellable check_amount check_buffer check_warnings
    check_open check_session check_duplicate check_event get_daily_loss get_today_realized_pnl_krw
    pnl_since sum_simulation_trades_since has_high_risk_event_today order_id_exists
    get_position_ratio get_cash_buffer_krw get_operating_funds_krw get_position_value_krw
    get_total_value_krw get_holdings_value_krw add_holdings load_holdings_and_cash virtual_holdings
    load load_positions load_cash fixed_float quotient ◌+ℤ◌ ◌-ℤ◌ ◌*ℤ◌
purchase_filled = refl

none_held :
    (old : SimPosition Fixed)
    → lookup purchase.symbol portfolio.positions ≡ some old
    → old.market ≡ simulation_kr.market
unfolding lookup
none_held old h = cc

-- A week with a profit of 20 000 won from LIVE trades and a cost of 5 000 won.
abbrev after_profit : World Fixed
after_profit = record start {
  database = record empty_tables {
    trades =
        record {
          symbol = "005930";
          market = kr;
          action = sell;
          quantity = pos 5;
          fill_price = won 10_000;
          commission_krw = pos 50;
          pnl_krw = some (pos 20_000);
          decision_id = "d0";
          order_id = none;
          created_at = 900_000;
        }
        ∷ [];
    api_usage =
        record {
          model = "claude";
          cost_usd = won 3;
          cost_krw = pos 5_000;
          input_tokens = pos 100;
          output_tokens = pos 100;
          cache_read_tokens = pos 0;
          cache_write_tokens = pos 0;
          created_at = 900_000;
        }
        ∷ [];
  };
}

abbrev rebalanced : RebalanceResult
rebalanced = record {
  api_cost_covered_krw = pos 5_000;
  reinvested_krw = pos 12_000;
  buffer_added_krw = pos 3_000;
}

rebalanced_run : (weekly_rebalance exchange live after_profit).0 ≡ ok rebalanced
unfolding weekly_rebalance get_weekly_net_profit_krw get_api_usage_month_krw pnl_since
    sum_trades_since sum_costs_since get_cash_buffer_krw get_total_value_krw get_holdings_value_krw
    add_holdings load_holdings_and_cash fixed_float quotient ◌+ℤ◌ ◌-ℤ◌ ◌*ℤ◌
rebalanced_run = refl

check-approve_iff_example :
    (check exchange (order_of purchase 50_000) simulation_kr start ≡ ok approve)
    ↔ Permits exchange (order_of purchase 50_000) simulation_kr start
check-approve_iff_example =
    check-approve_iff exchange (order_of purchase 50_000) simulation_kr start

execute-guarded_example :
    IsPermitted exchange versions large_purchase simulation_kr start
    ⊎ Untouched start (execute exchange large_purchase simulation_kr versions start).1
execute-guarded_example = execute-guarded exchange versions large_purchase simulation_kr start

execute-filled_example : IsPermitted exchange versions purchase simulation_kr start
execute-filled_example =
    execute-filled exchange versions purchase simulation_kr start purchase_filled refl

execute-refused_example : execute exchange large_purchase simulation_kr versions start ≡ (
  ok (rejected (order_amount_exceeded (pos 500_000))),
  after_refusal exchange versions large_purchase simulation_kr start
      (order_of large_purchase 500_000)
      (order_amount_exceeded (pos 500_000)),
)
execute-refused_example =
    execute-refused exchange versions large_purchase simulation_kr start
      (order_of large_purchase 500_000) (order_amount_exceeded (pos 500_000)) (λ h. cc) large_order
      too_large

execute-InSync_example :
    (p : SimulationPortfolio Fixed) × InSync exchange
      (execute exchange purchase simulation_kr versions start).1
      p
execute-InSync_example =
    execute-InSync exchange (λ v. refl) versions purchase simulation_kr start portfolio in_step refl
      none_held purchase_filled

execute-SameVirtual_example : SameVirtual start (execute exchange purchase live_kr versions start).1
execute-SameVirtual_example = execute-SameVirtual exchange versions purchase live_kr start refl

execute-SameReal_example : SameReal start (execute exchange purchase simulation_kr versions start).1
execute-SameReal_example = execute-SameReal exchange versions purchase simulation_kr start (λ h. cc)

execute-dry_run_example : Untouched start (execute exchange purchase dry_run_kr versions start).1
execute-dry_run_example = execute-dry_run exchange versions purchase dry_run_kr start refl

execute-reloads_example :
    (p : SimulationPortfolio Fixed) × (load
        (execute exchange purchase simulation_kr versions start).1
      ≡ ok p)
    × (((execute exchange purchase simulation_kr versions start).1.memory ≡ none)
        ⊎ ((execute exchange purchase simulation_kr versions start).1.memory ≡ some p))
execute-reloads_example =
    execute-reloads exchange (λ v. refl) versions purchase simulation_kr start portfolio in_step
      refl none_held purchase_filled

weekly_rebalance-conserves_example :
    (shared rebalanced
      ≡ at_least_zero (
          get_weekly_net_profit_krw live after_profit
          -ℤ get_api_usage_month_krw exchange after_profit))
    × (rebalanced.api_cost_covered_krw ≡ get_api_usage_month_krw exchange after_profit)
    × ((total : ℤ) × ((weekly_rebalance exchange live after_profit).1
          ≡ recorded exchange live total rebalanced after_profit))
weekly_rebalance-conserves_example =
    weekly_rebalance-conserves exchange live after_profit rebalanced_run

Reach-get_daily_loss_example :
    get_daily_loss live_kr (execute exchange purchase live_kr versions start).1 ≡ pos 0
Reach-get_daily_loss_example =
    Reach-get_daily_loss exchange live_kr refl (next here (executed purchase live_kr versions refl))
      refl

-- The first state, with the emergency stop set.
abbrev stopped : World Fixed
stopped = record start { settings = record start.settings { emergency_stop = true } }

execute-stopped_example : Untouched stopped (execute exchange purchase live_kr versions stopped).1
execute-stopped_example = execute-stopped exchange versions purchase live_kr stopped refl
