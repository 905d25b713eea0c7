-- ===== src/Trading/Executor/Fill.antt =====
-- `_execute_live` and `_execute_simulation`.
use toss_invest_ai.Prelude.{String, Option, none, some, true, if◌then◌else◌}
use toss_invest_ai.Prelude.Int.{ℤ, pos}
use toss_invest_ai.Prelude.Dict.{lookup}
use toss_invest_ai.Prelude.{string_equality}
use toss_invest_ai.Float.{Float, ◌⊕◌, ◌⊖◌, ◌⊗◌, of_int, equal}
use toss_invest_ai.Models.{
  Mode, dry_run, RunMode, buy, Order, Decision, OrderId, exchange_id, virtual_id, OrderResult, ok,
  or_error, key_error,
}
use toss_invest_ai.World.{
  Exchange, PlaceReply, SimulationPortfolio, Action, pure, query, lift, modify, publish_event,
  ◌>>=◌, ◌>>◌, trade_executed, TradeExecuted, TradeLog,
}
use toss_invest_ai.Store.{kst_date}
use toss_invest_ai.Toss.Order.{place}
use toss_invest_ai.Simulation.{load, apply_buy, apply_sell}
use toss_invest_ai.Trading.Executor.Records.{
  commission_krw, insert_order, insert_trade, insert_simulation_trade, append_trade_log,
}

-- `strategy_version` and `prompt_version`
abbrev pub Versions : Type 0
Versions = String × String

-- What a fill has come to: profit, average price and change of the balance.
pub record Outcome (F : Type 0) : Type 0 where
  pub pnl : Option F
  pub avg_price : Option F
  pub balance_change : Option F

module _ {F : Type 0} where
  abbrev pub filled_result : Option OrderId → F → OrderResult F
  filled_result id price = record {
    filled = true;
    order_id = id;
    fill_price = some price;
    reason = none;
  }

  abbrev log_entry :
      Decision F → Order F → Mode → F → Option OrderId → ℤ → Outcome F → Versions → TradeLog F
  log_entry d order mode fill id commission out versions = record {
    order = order;
    mode = mode;
    fill_price = fill;
    order_id = id;
    commission_krw = commission;
    realized_pnl_krw = out.pnl;
    balance_change_krw = out.balance_change;
    reason = d.reason;
    decision_id = d.decision_id;
    strategy_version = versions.0;
    prompt_version = versions.1;
  }

  abbrev executed_event :
      Decision F → Order F → F → F → Option OrderId → ℤ → Outcome F → TradeExecuted F
  executed_event d order fill total id commission out = record {
    symbol = order.symbol;
    action = order.action;
    quantity = order.quantity;
    fill_price = fill;
    total_amount_krw = total;
    commission_krw = commission;
    pnl_krw = out.pnl;
    avg_price = out.avg_price;
    balance_change_krw = out.balance_change;
    reason = d.reason;
    decision_id = d.decision_id;
    order_id = id;
  }

  abbrev no_outcome : Outcome F
  no_outcome = record { pnl = none; avg_price = none; balance_change = none }

  abbrev exchange_order_id : PlaceReply F → Option OrderId
  exchange_order_id reply = elim reply.order_id [ none ↦ none | some id ↦ some (exchange_id id) ]

module _ {F : Type 0} ⦃f : Float F⦄ where
  -- `order.price or 0`
  abbrev price_or_zero : Option F → F
  price_or_zero none = of_int (pos 0)
  price_or_zero (some p) = if equal p (of_int (pos 0)) then of_int (pos 0) else p

  -- `float(response.get("fillPrice", order.price or 0))`
  abbrev live_fill_price : PlaceReply F → Order F → F
  live_fill_price reply order = elim reply.fill_price [
    | some p ↦ p
    | none ↦ price_or_zero order.price
  ]

module _ {F : Type 0} ⦃f : Float F⦄ (x : Exchange F) where
  abbrev record_live :
      Decision F → Order F → RunMode → Versions → PlaceReply F → Action F (OrderResult F)
  record_live d order mode versions reply = do
    let fill = live_fill_price reply order
    let id = exchange_order_id reply
    let total = fill ⊗ of_int order.quantity
    insert_order x order
    commission ← commission_krw x order.market total
    insert_trade x order fill commission d.decision_id id
    append_trade_log (log_entry d order mode.mode fill id commission no_outcome versions)
    publish_event mode.mode (some order.market)
        (trade_executed (executed_event d order fill total id commission no_outcome))
    pure (filled_result id fill)

  unfoldable pub execute_live : Decision F → Order F → RunMode → Versions → Action F (OrderResult F)
  execute_live d order mode versions = do
    reply ← place x order
    record_live d order mode versions reply

  abbrev remember : Option (SimulationPortfolio F) → Action F (SimulationPortfolio F)
  remember (some p) = pure p
  remember none = do p ← query load; modify λ w. record w { memory = some p }; pure p

  -- The portfolio of the process, loaded at its first use.
  unfoldable pub get_simulation_portfolio : Action F (SimulationPortfolio F)
  get_simulation_portfolio w = remember w.memory w

  -- `order.price or (await get_price(symbol))["price"]`
  abbrev pub virtual_fill_price : Order F → Option F → Action F F
  virtual_fill_price order none = query (x.price order.symbol)
  virtual_fill_price order (some p) =
      if equal p (of_int (pos 0)) then query (x.price order.symbol) else pure p

  abbrev pub cost_change : F → ℤ → F
  cost_change notional commission = f.negate (notional ⊕ of_int commission)

  abbrev pub proceeds_change : F → ℤ → F
  proceeds_change notional commission = notional ⊖ of_int commission

  -- A purchase in the virtual portfolio, and its row.
  unfoldable pub buy_in_portfolio : SimulationPortfolio F → Order F → F → ℤ → Action F (Outcome F)
  buy_in_portfolio p order fill commission = do
    apply_buy x p order.symbol order.quantity fill commission order.market
    insert_simulation_trade x order fill commission none
    pure (record {
      pnl = none;
      avg_price = none;
      balance_change = some (cost_change (fill ⊗ of_int order.quantity) commission);
    })

  -- A sale, and its row. The profit goes to an Integer column, which may refuse it.
  unfoldable pub sell_in_portfolio : SimulationPortfolio F → Order F → F → ℤ → Action F (Outcome F)
  sell_in_portfolio p order fill commission = do
    held ← lift (or_error key_error (lookup order.symbol p.positions))
    pnl ← apply_sell x p order.symbol order.quantity fill commission
    stored ← lift (x.integer_column pnl)
    insert_simulation_trade x order fill commission (some stored)
    pure (record {
      pnl = some pnl;
      avg_price = some held.avg_price;
      balance_change = some (proceeds_change (fill ⊗ of_int order.quantity) commission);
    })

  abbrev pub fill_in_portfolio : Order F → F → ℤ → Action F (Outcome F)
  fill_in_portfolio order fill commission = do
    p ← get_simulation_portfolio
    elim order.action [
      | buy ↦ buy_in_portfolio p order fill commission
      | _ ↦ sell_in_portfolio p order fill commission
    ]

  abbrev dry_outcome : Order F → F → ℤ → Outcome F
  dry_outcome order fill commission =
      let notional = fill ⊗ of_int order.quantity in
      record {
        pnl = none;
        avg_price = none;
        balance_change = some (elim order.action [
          | buy ↦ cost_change notional commission
          | _ ↦ proceeds_change notional commission
        ]);
      }

  abbrev pub record_virtual :
      Decision F → Order F → RunMode → Versions → F → ℤ → OrderId → Action F (Outcome F)
  record_virtual d order mode versions fill commission id = do
    out ← fill_in_portfolio order fill commission
    append_trade_log (log_entry d order mode.mode fill (some id) commission out versions)
    pure out

  -- DRY_RUN leaves no trace but the event.
  abbrev pub virtual_outcome :
      Mode → Decision F → Order F → RunMode → Versions → F → ℤ → OrderId → Action F (Outcome F)
  virtual_outcome dry_run d order mode versions fill commission id =
      pure (dry_outcome order fill commission)
  virtual_outcome _ d order mode versions fill commission id =
      record_virtual d order mode versions fill commission id

  abbrev new_virtual_id : Order F → RunMode → Action F OrderId
  new_virtual_id order mode w =
      (ok (virtual_id mode.mode (kst_date w.now) order.market (x.unique_hex w)), w)

  unfoldable pub execute_simulation :
      Decision F → Order F → RunMode → Versions → Action F (OrderResult F)
  execute_simulation d order mode versions = do
    fill ← virtual_fill_price order order.price
    commission ← commission_krw x order.market (fill ⊗ of_int order.quantity)
    id ← new_virtual_id order mode
    out ← virtual_outcome mode.mode d order mode versions fill commission id
    publish_event mode.mode (some order.market) (
        trade_executed
          (executed_event d order fill (fill ⊗ of_int order.quantity) (some id) commission out))
    pure (filled_result (some id) fill)
