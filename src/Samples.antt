-- ===== src/Samples.antt =====
-- Concrete states, orders and exchanges for the tests.
use toss_invest_ai.Prelude.{ℕ, ◌*◌, none, some, true, false, []}
use toss_invest_ai.Prelude.Int.{pos}
use toss_invest_ai.Float.Fixed.{Fixed, fixed, fixed_float}
use toss_invest_ai.Config.{Settings}
use toss_invest_ai.Models.{
  kr, live, simulation, dry_run, RunMode, buy, limit_order, low_risk, Order, Decision, free_text,
  ok,
}
use toss_invest_ai.World.{World, Database, Exchange}
use toss_invest_ai.Trading.Executor.{Versions}

-- A number of won, or of anything else that is whole.
abbrev pub won : ℕ → Fixed
won n = fixed (pos (n * 10_000))

abbrev pub settings : Settings Fixed
settings = record {
  claude_model = "claude";
  claude_input_price_per_mtok = won 3;
  claude_output_price_per_mtok = won 15;
  initial_seed_krw = pos 1_000_000;
  cash_buffer_ratio = fixed (pos 1_500);
  max_daily_loss_krw = pos 50_000;
  max_position_ratio = fixed (pos 3_000);
  max_single_order_krw = pos 100_000;
  emergency_stop = false;
  kr_stop = false;
  us_stop = false;
  is_dry_run = false;
  is_simulation = true;
}

abbrev pub empty_tables : Database Fixed
empty_tables = record {
  simulation_positions = [];
  simulation_trades = [];
  trades = [];
  orders = [];
  safety_rejections = [];
  market_events = [];
  fund_rebalances = [];
  api_usage = [];
  decisions = [];
  simulation_portfolio_snapshots = [];
  live_portfolio_snapshots = [];
  strategy_versions = [];
  reflections = [];
  watchlist = [];
  reports = [];
  paper_trades = [];
}

abbrev pub start : World Fixed
start = record {
  settings = settings;
  now = 1_000_000;
  database = empty_tables;
  memory = none;
  placed = [];
  trade_log = [];
  rejection_log = [];
  health = none;
  events = [];
}

-- Every price is 10 000 won, the markets are open, and the account holds nothing but cash.
abbrev pub exchange : Exchange Fixed
exchange = record {
  price = λ s w. ok (won 10_000);
  exchange_rate = λ w. ok (won 1_400);
  holdings = λ w. ok [];
  buying_power = λ w. ok (won 1_000_000);
  sellable_quantity = λ s w. ok (pos 0);
  commission_rate = λ m w. ok (fixed (pos 10));
  warnings = λ s w. ok (record { has_restriction = false; reason = none });
  calendar = λ m w. ok (record { is_open = true; is_regular_session = true });
  place = λ o w. ok (record { order_id = some "T-1"; fill_price = some (won 10_000) });
  unique_hex = λ w. "0123ab";
  client_order_id = λ m w. "BIN-KR-0123AB";
  integer_column = λ v. ok (pos 0);
  numeric_column = λ v. v;
  month_start = λ t. 0;
}

abbrev pub live_kr : RunMode
live_kr = record { mode = live; market = kr }

abbrev pub simulation_kr : RunMode
simulation_kr = record { mode = simulation; market = kr }

abbrev pub dry_run_kr : RunMode
dry_run_kr = record { mode = dry_run; market = kr }

abbrev pub versions : Versions
versions = ("v1.0.0", "p1")

-- Five shares, within the limit of one order.
abbrev pub purchase : Decision Fixed
purchase = record {
  decision_id = "d1";
  action = buy;
  symbol = "005930";
  quantity = pos 5;
  order_type = limit_order;
  price = some (won 10_000);
  confidence = fixed (pos 8_000);
  reason = free_text "test";
  risk_level = low_risk;
}

-- Fifty shares, far above the limit of one order.
abbrev pub large_purchase : Decision Fixed
large_purchase = record purchase { quantity = pos 50 }

-- The order of a purchase that comes to this amount.
abbrev pub order_of : Decision Fixed → ℕ → Order Fixed
order_of d amount = record {
  symbol = d.symbol;
  market = kr;
  action = d.action;
  quantity = d.quantity;
  order_type = d.order_type;
  price = d.price;
  amount_krw = pos amount;
  client_order_id = "BIN-KR-0123AB";
}
