-- ===== src/Gateway/Parse.antt =====
-- `parse_decision_json` of core/gateway/base.py.
use toss_invest_ai.Prelude.{
  String, string_equality, Bool, true, false, ◌&&◌, not, Option, none, some, ◌==◌, if◌then◌else◌,
}
use toss_invest_ai.Prelude.Int.{ℤ, pos, leb_ℤ}
use toss_invest_ai.Float.{Float, of_int, at_most, decimal}
use toss_invest_ai.Models.{
  Result, ok, err, or_error, ◌>>=◌, value_error, TradeAction, buy, sell, hold, OrderType,
  limit_order, market_order, RiskLevel, low_risk, medium_risk, high_risk, Decision, free_text,
}
use toss_invest_ai.Gateway.Texts.{is_symbol, json_block}
use toss_invest_ai.Gateway.Json.{
  Json, json_string, json_object, Python, get, subscript, hashed, int_of, float_of, is_true, str_of,
}

-- `_VALID_ACTIONS`
abbrev pub action_of : Option String → Option TradeAction
action_of none = none
action_of (some s) =
    if s == "BUY"
    then some buy
    else (if s == "SELL" then some sell else (if s == "HOLD" then some hold else none))

-- `_VALID_ORDER_TYPES`
abbrev pub order_type_of : Option String → Option OrderType
order_type_of none = none
order_type_of (some s) =
    if s == "LIMIT" then some limit_order else (if s == "MARKET" then some market_order else none)

-- `_VALID_RISK_LEVELS`
abbrev pub risk_level_of : Option String → Option RiskLevel
risk_level_of none = none
risk_level_of (some s) =
    if s == "LOW"
    then some low_risk
    else (if s == "MEDIUM"
        then some medium_risk
        else (if s == "HIGH" then some high_risk else none))

abbrev pub unless : Bool → Result (Unit {0})
unless bad = if bad then err value_error else ok tt

abbrev pub is_trade : TradeAction → Bool
is_trade hold = false
is_trade _ = true

module _ {F : Type 0} where
  -- A key whose value is one of a set of texts.
  abbrev pub read_one : {A : Type 0} → (Option String → Option A) → Json F → String → Result A
  read_one known v key = do
    found ← subscript v key
    text ← hashed found
    or_error value_error (known text)

  abbrev pub symbol_of : Json F → Option String
  symbol_of (json_string s) = if is_symbol s then some s else none
  symbol_of _ = none

  abbrev pub read_symbol : Json F → Result String
  read_symbol v = do found ← subscript v "symbol"; or_error value_error (symbol_of found)

  -- `data.get(key)`: whatever the block reads as is an object, since a brace begins it.
  abbrev pub optional : Json F → String → Option (Json F)
  optional (json_object fs) key = get key fs
  optional _ key = none

module _ {F : Type 0} ⦃f : Float F⦄ where
  abbrev pub positive_price : F → Result (Option F)
  positive_price price = do _ ← unless (at_most price (of_int (pos 0))); ok (some price)

module _ {F : Type 0} ⦃f : Float F⦄ (py : Python F) where
  abbrev pub read_quantity : TradeAction → Json F → Result ℤ
  read_quantity action v = do
    found ← subscript v "quantity"
    quantity ← int_of py found
    _ ← unless (is_trade action && leb_ℤ quantity (pos 0))
    ok quantity

  abbrev pub read_confidence : Json F → Result F
  read_confidence v = do
    found ← subscript v "confidence"
    confidence ← float_of py found
    _ ← unless (not (at_most (decimal 0 1) confidence && at_most confidence (decimal 10 1)))
    ok confidence

  abbrev pub price_of : Option (Json F) → Result (Option F)
  price_of none = ok none
  price_of (some found) = if is_true py found then float_of py found >>= positive_price else ok none

  abbrev pub decision_of : String → Json F → Result (Decision F)
  decision_of id v = do
    action ← read_one action_of v "action"
    symbol ← read_symbol v
    order_type ← read_one order_type_of v "order_type"
    risk_level ← read_one risk_level_of v "risk_level"
    quantity ← read_quantity action v
    confidence ← read_confidence v
    price ← price_of (optional v "price")
    reason ← subscript v "reason"
    ok (record {
      decision_id = id;
      action = action;
      symbol = symbol;
      quantity = quantity;
      order_type = order_type;
      price = price;
      confidence = confidence;
      reason = free_text (str_of py reason);
      risk_level = risk_level;
    })

  -- The first argument is the identifier that the decision gets.
  unfoldable pub parse_decision_json : String → String → Result (Decision F)
  parse_decision_json id text = do
    block ← or_error value_error (json_block text)
    v ← or_error value_error (py.loads block)
    decision_of id v
