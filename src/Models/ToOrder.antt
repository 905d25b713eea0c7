-- ===== src/Models/ToOrder.antt =====
-- `Decision.to_order` of core/models.py.
use toss_invest_ai.Prelude.{String, Option, none, some}
use toss_invest_ai.Prelude.Int.{ℤ}
use toss_invest_ai.Float.{Float, ◌⊗◌, of_int}
use toss_invest_ai.Models.Types.{
  Market, hold, Order, Decision, Result, ok, err, or_error, ◌>>=◌, value_error, truncated,
}

module _ {F : Type 0} ⦃f : Float F⦄ where
  -- The price by which the amount is estimated: the decision's own, or the reference price.
  abbrev pub unit_price : Decision F → Option F → Result F
  unit_price d reference = elim d.price [ some p ↦ ok p | none ↦ or_error value_error reference ]

  abbrev order_of : Decision F → Market → String → ℤ → Order F
  order_of d market client_order_id amount = record {
    symbol = d.symbol;
    market = market;
    action = d.action;
    quantity = d.quantity;
    order_type = d.order_type;
    price = d.price;
    amount_krw = amount;
    client_order_id = client_order_id;
  }

  abbrev priced : Decision F → Market → String → Option F → Result (Order F)
  priced d market client_order_id reference = do
    p ← unit_price d reference
    amount ← truncated (p ⊗ of_int d.quantity)
    ok (order_of d market client_order_id amount)

  unfoldable pub to_order : Decision F → Market → String → Option F → Result (Order F)
  to_order d market client_order_id reference = elim d.action [
    | hold ↦ err value_error
    | _ ↦ priced d market client_order_id reference
  ]
