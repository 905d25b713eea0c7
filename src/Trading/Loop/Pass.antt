-- ===== src/Trading/Loop/Pass.antt =====
-- `run_loop` of core/trading/loop.py.
use toss_invest_ai.Prelude.{
  nat_eq, String, Bool, true, false, ◌||◌, ◌&&◌, Option, none, some, List, [], ◌∷◌, ◌++◌, map,
  if◌then◌else◌,
}
use toss_invest_ai.Prelude.Int.{ℤ, pos}
use toss_invest_ai.Prelude.Lists.{keep}
use toss_invest_ai.Float.{Float, of_int, decimal, equal}
use toss_invest_ai.Config.{run_mode}
use toss_invest_ai.Models.{
  Market, kr, us, Mode, live, simulation, hold, Decision, OrderResult, Result, ok, err,
  StateSnapshot, StateHolding, MarketEvent,
}
use toss_invest_ai.World.{
  World, Exchange, Holding, Action, Query, DecisionRow, PortfolioSnapshot, PortfolioStatus,
  WatchlistItem, query, lift, pure, with_database, publish_event, status_update, ◌>>=◌,
}
use toss_invest_ai.Simulation.{same_market}
use toss_invest_ai.Store.{kst_date, get_api_usage_month_krw}
use toss_invest_ai.Fund.{get_operating_funds_krw}
use toss_invest_ai.Fund.Status.{get_portfolio_status}
use toss_invest_ai.Improvement.Versions.{get_latest_deployed_strategy_version}
use toss_invest_ai.MarketData.Watchlist.{get_watchlist}
use toss_invest_ai.MarketData.Collector.{Source}
use toss_invest_ai.MarketData.Snapshot.{MarketSnapshot, collect_market_snapshot}
use toss_invest_ai.Gateway.Json.{Python}
use toss_invest_ai.Gateway.Services.{Services}
use toss_invest_ai.Trading.Executor.{execute}
use toss_invest_ai.Trading.Loop.Deciding.{decide}

-- What a pass uses besides the exchange.
pub record Means (F : Type 0) : Type 0 where
  pub source : Source F
  pub services : Services F
  pub python : Python F
  -- what the driver makes of a snapshot in a JSON column: it is stored or refused
  pub json_column : StateSnapshot F → Result (Unit {0})

-- `_DEFAULT_PROMPT_VERSION`
abbrev pub default_prompt_version : Market → String
default_prompt_version kr = "system_kr_v1"
default_prompt_version us = "system_us_v1"

abbrev pub symbols_of : List WatchlistItem → List String
symbols_of = map (λ (i : WatchlistItem). i.symbol)

-- `"LIVE" if run_mode == "LIVE" else "SIMULATION"`
abbrev pub ledger : Mode → Mode
ledger live = live
ledger _ = simulation

abbrev pub is_live : Mode → Bool
is_live live = true
is_live _ = false

module _ {F : Type 0} where
  unfoldable pub prompt_version : Market → World F → String
  prompt_version market w = elim (get_latest_deployed_strategy_version (some market) w) [
    | none ↦ default_prompt_version market
    | some v ↦ v.prompt_version
  ]

  -- `get_events_today` of core/events/calendar.py
  unfoldable pub get_events_today : Market → World F → List MarketEvent
  get_events_today market w =
      keep
        (λ (e : MarketEvent).
          same_market e.market market && nat_eq (kst_date e.event_at) (kst_date w.now))
        w.database.market_events

  -- The stop flags that end a pass at once.
  unfoldable pub is_stopped : Market → World F → Bool
  is_stopped market w =
      w.settings.emergency_stop
      || same_market market kr && w.settings.kr_stop
      || same_market market us && w.settings.us_stop

module _ {F : Type 0} ⦃f : Float F⦄ where
  abbrev holding_entry : Holding F → StateHolding F
  holding_entry h = record {
    symbol = h.symbol;
    quantity = h.quantity;
    avg_price = elim h.avg_price [ none ↦ of_int (pos 0) | some p ↦ p ];
  }

  abbrev state_of :
      Market
      → World F
      → MarketSnapshot F
      → List MarketEvent
      → PortfolioStatus F
      → F
      → ℤ
      → StateSnapshot F
  state_of market w snapshot events status funds cost = record {
    market = market;
    mode = run_mode w.settings;
    strategy_version = "v1.0.0";
    prompt_version = prompt_version market w;
    timestamp = w.now;
    exchange_rate_krw_usd = snapshot.exchange_rate_krw_usd;
    prices = snapshot.prices;
    figures = record {
      total_value_krw = status.total_value_krw;
      operating_funds_krw = funds;
      cash_buffer_krw = status.cash_buffer_krw;
      today_realized_pnl_krw = status.today_pnl_krw;
      api_cost_month_krw = cost;
    };
    holdings = map holding_entry snapshot.holdings;
    toss_popular_top10 = snapshot.toss_popular_top10;
    fear_greed_index = snapshot.fear_greed_index;
    market_events_today = events;
  }

  -- `_infer_model_used`
  abbrev model_used : Decision F → World F → String
  model_used d w =
      if equal d.confidence (decimal 10 1) then "rule_based" else w.settings.claude_model

  abbrev decision_row : StateSnapshot F → Decision F → World F → DecisionRow F
  decision_row state d w = record {
    decision_id = d.decision_id;
    mode = state.mode;
    market = state.market;
    strategy_version = state.strategy_version;
    prompt_version = state.prompt_version;
    model_used = model_used d w;
    state_snapshot = state;
    action = d.action;
    symbol = d.symbol;
    quantity = d.quantity;
    reason = d.reason;
    confidence = d.confidence;
    created_at = w.now;
  }

module _ {F : Type 0} ⦃f : Float F⦄ (x : Exchange F) (p : Means F) where
  -- The part of the snapshot that is read after the market data.
  abbrev pub read_state : Market → MarketSnapshot F → Query F (StateSnapshot F)
  read_state market snapshot w =
      let mode = ledger (run_mode w.settings) in
      elim (get_portfolio_status x mode none w) [
        | err e ↦ err e
        | ok status ↦ elim (get_operating_funds_krw x mode w) [
          | err e ↦ err e
          | ok funds ↦ ok (
              state_of market w snapshot (get_events_today market w) status funds
                (get_api_usage_month_krw x w))
        ]
      ]

  unfoldable pub build_state_snapshot : Market → Action F (StateSnapshot F)
  build_state_snapshot market w =
      (do
        snapshot ←
            collect_market_snapshot x p.source market (symbols_of (get_watchlist (some market) w))
        query (read_state market snapshot))
        w

  unfoldable pub record_decision : StateSnapshot F → Decision F → Action F (Unit {0})
  record_decision state d w =
      (do
        _ ← lift (p.json_column state)
        with_database
            (λ db. record db { decisions = db.decisions ++ (decision_row state d w ∷ []) }))
        w

  abbrev executed : Market → StateSnapshot F → Decision F → Action F (OrderResult F)
  executed market state d w =
      execute x d (record { mode = run_mode w.settings; market = market })
        (state.strategy_version, state.prompt_version) w

  -- A decision to hold is not executed.
  abbrev pub carried_out : Market → StateSnapshot F → Decision F → Action F (Unit {0})
  carried_out market state d = elim d.action [
    | hold ↦ pure tt
    | _ ↦ do _ ← executed market state d; pure tt
  ]

  abbrev snapshot_row : PortfolioStatus F → World F → PortfolioSnapshot
  snapshot_row status w = record {
    total_value_krw = status.total_value_krw;
    cash_krw = status.cash_krw;
    snapshot_at = w.now;
  }

  abbrev add_simulation_snapshot : PortfolioStatus F → Action F (Unit {0})
  add_simulation_snapshot status w =
      with_database
        (λ db. record db {
          simulation_portfolio_snapshots =
              db.simulation_portfolio_snapshots ++ (snapshot_row status w ∷ []);
        })
        w

  abbrev add_live_snapshot : Option (PortfolioStatus F) → Action F (Unit {0})
  add_live_snapshot none w = pure tt w
  add_live_snapshot (some status) w =
      with_database
        (λ db. record db {
          live_portfolio_snapshots = db.live_portfolio_snapshots ++ (snapshot_row status w ∷ []);
        })
        w

  abbrev live_status : Query F (Option (PortfolioStatus F))
  live_status w =
      if is_live (run_mode w.settings)
      then (elim (get_portfolio_status x live none w) [
        | ok status ↦ ok (some status)
        | err e ↦ err e
      ])
      else ok none

  unfoldable pub publish_status_update : Action F (Unit {0})
  publish_status_update w =
      (do
        real ← query live_status
        virtual ← query (get_portfolio_status x simulation none)
        _ ← add_simulation_snapshot virtual
        _ ← add_live_snapshot real
        publish_event (run_mode w.settings) none (status_update real virtual))
        w

  abbrev pub recorded_pass : Market → StateSnapshot F → Decision F → Action F (Unit {0})
  recorded_pass market state d = do
    _ ← record_decision state d
    _ ← carried_out market state d
    publish_status_update

  abbrev pub open_pass : Market → Action F (Unit {0})
  open_pass market = do
    state ← build_state_snapshot market
    d ← decide x p.python p.services state
    recorded_pass market state d

  -- A stopped market and a closed one end the pass before anything is collected.
  unfoldable pub run_loop : Market → Action F (Unit {0})
  run_loop market w = if is_stopped market w then (ok tt, w) else (elim (x.calendar market w) [
    | err e ↦ (err e, w)
    | ok c ↦ if c.is_open then open_pass market w else (ok tt, w)
  ])
