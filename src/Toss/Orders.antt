-- ===== src/Toss/Orders.antt =====
-- The requests of core/toss/order.py: the body of an order, the change and the cancellation of an
-- order, and the lists of orders.
use Prim.Native.String.{◌++◌}
use toss_invest_ai.Prelude.{
  String, string_equality, true, Option, none, some, List, [], ◌∷◌, ◌==◌, if◌then◌else◌,
}
use toss_invest_ai.Models.{
  Order, TradeAction, buy, sell, hold, OrderType, limit_order, market_order, amount_order,
}
use toss_invest_ai.Toss.Link.{order, order_history}
use toss_invest_ai.Toss.Calls.{
  Call, Details, post_method, asking, call, given, ◌>>=◌, market_text, Service,
}
use toss_invest_ai.Gateway.Json.{
  Json, json_int, json_float, json_string, json_object, Fields, field, no_fields, subscript, Python,
}

abbrev pub action_text : TradeAction → String
action_text buy = "BUY"
action_text sell = "SELL"
action_text hold = "HOLD"

abbrev pub order_type_text : OrderType → String
order_type_text limit_order = "LIMIT"
order_type_text market_order = "MARKET"
order_type_text amount_order = "AMOUNT"

-- `params = {"status": status} if status else None`
abbrev pub status_params : Option String → Option (List (String × String))
status_params none = none
status_params (some status) = if status == "" then none else some (("status", status) ∷ [])

module _ {F : Type 0} where
  abbrev pub amount_fields : Order F → Fields F
  amount_fields o = elim o.order_type [
    | amount_order ↦ field "amountKrw" (json_int o.amount_krw) no_fields
    | _ ↦ no_fields
  ]

  abbrev pub price_fields : Order F → Fields F
  price_fields o = elim o.price [
    | some p ↦ field "price" (json_float p) (amount_fields o)
    | none ↦ amount_fields o
  ]

  unfoldable pub order_payload : Order F → Json F
  order_payload o = json_object (
      field "symbol" (json_string o.symbol) (
        field "market" (json_string (market_text o.market)) (
          field "side" (json_string (action_text o.action)) (
            field "quantity" (json_int o.quantity) (
              field "orderType" (json_string (order_type_text o.order_type))
                (field "clientOrderId" (json_string o.client_order_id) (price_fields o)))))))

  abbrev pub posting : Option (Json F) → Details F
  posting body = record {
    method = post_method;
    params = none;
    json = body;
    account_required = true;
  }

  module _ (py : Python F) (s : Service F) where
    unfoldable pub place_request : Order F → Call (Json F)
    place_request o = call py s (posting (some (order_payload o))) order "/api/v1/orders"

    abbrev pub modify : String → Fields F → Call (Json F)
    modify order_id changes =
        call py s (posting (some (json_object changes))) order
          ("/api/v1/orders/" ++ (order_id ++ "/modify"))

    abbrev pub cancel : String → Call (Json F)
    cancel order_id = call py s (posting none) order ("/api/v1/orders/" ++ (order_id ++ "/cancel"))

    abbrev pub get_orders : Option String → Call (Json F)
    get_orders status = do
      reply ← call py s (asking (status_params status) true) order_history "/api/v1/orders"
      given (subscript reply "orders")

    abbrev pub get_order : String → Call (Json F)
    get_order order_id = call py s (asking none true) order_history ("/api/v1/orders/" ++ order_id)
