-- ===== src/Trading/Executor/Records.antt =====
-- What the executor writes: table rows, log entries and events, and the commission.
use toss_invest_ai.Prelude.{String, Option, none, some, [], ◌∷◌, ◌++◌}
use toss_invest_ai.Prelude.Int.{ℤ}
use toss_invest_ai.Float.{Float, ◌⊗◌}
use toss_invest_ai.Models.{Market, RunMode, Order, Reason, OrderId, rounded}
use toss_invest_ai.World.{
  Exchange, Action, query, lift, modify, with_database, publish_event, ◌>>=◌, ◌>>◌, filled_order,
  safety_rejection, TradeLog,
}

module _ {F : Type 0} where
  abbrev pub append_rejection_log : Order F → RunMode → Reason F → Action F (Unit {0})
  append_rejection_log order mode reason = modify λ w. record w {
    rejection_log = record { order = order; mode = mode.mode; reason = reason } ∷ w.rejection_log;
  }

  abbrev pub insert_rejection : Order F → RunMode → Reason F → Action F (Unit {0})
  insert_rejection order mode reason w =
      with_database
        (λ db. record db {
          safety_rejections =
              db.safety_rejections
              ++ (record {
                symbol = order.symbol;
                market = order.market;
                reason = reason;
                mode = mode.mode;
                created_at = w.now;
              }
                  ∷ []);
        })
        w

  unfoldable pub handle_rejection : Order F → RunMode → Reason F → Action F (Unit {0})
  handle_rejection order mode reason = do
    append_rejection_log order mode reason
    insert_rejection order mode reason
    publish_event mode.mode (some order.market) (safety_rejection order.symbol order.action reason)

  abbrev pub append_trade_log : TradeLog F → Action F (Unit {0})
  append_trade_log entry = modify λ w. record w { trade_log = entry ∷ w.trade_log }

module _ {F : Type 0} (x : Exchange F) where
  abbrev pub insert_order : Order F → Action F (Unit {0})
  insert_order order w =
      with_database
        (λ db. record db {
          orders =
              db.orders
              ++ (record {
                client_order_id = order.client_order_id;
                symbol = order.symbol;
                market = order.market;
                action = order.action;
                quantity = order.quantity;
                price = elim order.price [ none ↦ none | some p ↦ some (x.numeric_column p) ];
                status = filled_order;
                created_at = w.now;
              }
                  ∷ []);
        })
        w

  -- A row of `trades` has no `pnl_krw`.
  abbrev pub insert_trade : Order F → F → ℤ → String → Option OrderId → Action F (Unit {0})
  insert_trade order fill_price commission decision_id order_id w =
      with_database
        (λ db. record db {
          trades =
              db.trades
              ++ (record {
                symbol = order.symbol;
                market = order.market;
                action = order.action;
                quantity = order.quantity;
                fill_price = x.numeric_column fill_price;
                commission_krw = commission;
                pnl_krw = none;
                decision_id = decision_id;
                order_id = order_id;
                created_at = w.now;
              }
                  ∷ []);
        })
        w

  abbrev pub insert_simulation_trade : Order F → F → ℤ → Option ℤ → Action F (Unit {0})
  insert_simulation_trade order fill_price commission pnl w =
      with_database
        (λ db. record db {
          simulation_trades =
              db.simulation_trades
              ++ (record {
                symbol = order.symbol;
                market = order.market;
                action = order.action;
                quantity = order.quantity;
                fill_price = x.numeric_column fill_price;
                commission_krw = commission;
                pnl_krw = pnl;
                created_at = w.now;
              }
                  ∷ []);
        })
        w

module _ {F : Type 0} ⦃f : Float F⦄ (x : Exchange F) where
  unfoldable pub commission_krw : Market → F → Action F ℤ
  commission_krw market amount = do
    rate ← query (x.commission_rate market)
    lift (rounded (amount ⊗ rate))
