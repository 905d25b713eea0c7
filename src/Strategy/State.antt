-- ===== src/Strategy/State.antt =====
-- What the strategies share: the search for the
-- first signal, `make_decision` of core/strategy/base.py, and the quantity of a rule-based purchase.
use toss_invest_ai.Prelude.{
  String, string_equality, Bool, true, false, ◌&&◌, Option, none, some, List, [], ◌∷◌, ◌==◌,
  if◌then◌else◌,
}
use toss_invest_ai.Prelude.Int.{ℤ, pos}
use toss_invest_ai.Prelude.Lists.{any}
use toss_invest_ai.Prelude.Dict.{insert}
use toss_invest_ai.Float.{Float, of_int, equal}
use toss_invest_ai.Models.{
  PriceData, StateHolding, Market, kr, us, TradeAction, market_order, low_risk, Rationale, Decision,
  Result, ok, err, or_error, zero_division_error, truncated,
}

abbrev pub Signal : Type 0 → Type 0
Signal F = Result (Option (Decision F))

module _ {F : Type 0} where
  -- `{h["symbol"]: h for h in holdings}`
  unfoldable pub by_symbol :
      List (String × StateHolding F) → List (StateHolding F) → List (String × StateHolding F)
  by_symbol acc [] = acc
  by_symbol acc (h ∷ hs) = by_symbol (insert h.symbol h acc) hs

  -- `symbol in held_symbols`
  unfoldable pub is_held : String → List (StateHolding F) → Bool
  is_held symbol hs = any (λ (h : StateHolding F). h.symbol == symbol) hs

  abbrev pub or_else : Signal F → Signal F → Signal F
  or_else (err e) rest = err e
  or_else (ok (some d)) rest = ok (some d)
  or_else (ok none) rest = rest

  -- The first signal of a loop with `continue` and `return`.
  abbrev pub first_signal : {A : Type 0} → (A → Signal F) → List A → Signal F
  first_signal g [] = ok none
  first_signal g (a ∷ rest) = or_else (g a) (first_signal g rest)

  abbrev pub no_signal : Signal F
  no_signal = ok none

module _ {F : Type 0} ⦃f : Float F⦄ where
  -- The fresh id is the first argument.
  unfoldable pub make_decision : String → String → TradeAction → ℤ → Rationale F → Decision F
  make_decision id symbol action quantity reason = record {
    decision_id = id;
    action = action;
    symbol = symbol;
    quantity = quantity;
    order_type = market_order;
    price = none;
    confidence = f.decimal 10 1;
    reason = reason;
    risk_level = low_risk;
  }

  abbrev whole_shares : Result F → Result ℤ
  whole_shares (err e) = err e
  whole_shares (ok v) = truncated v

  -- `int(50_000 // price) if price else 0`
  unfoldable pub rule_quantity : Option F → Result ℤ
  rule_quantity none = ok (pos 0)
  rule_quantity (some p) =
      if equal p (of_int (pos 0))
      then ok (pos 0)
      else whole_shares (or_error zero_division_error (f.floor_divide (of_int (pos 50_000)) p))

abbrev pub is_kr_market : Market → Bool
is_kr_market kr = true
is_kr_market us = false

-- `state.market == "KR" and quote.get("vi_triggered")`
abbrev pub is_interrupted : {F : Type 0} → Market → PriceData F → Bool
is_interrupted market quote = is_kr_market market && quote.vi_triggered
